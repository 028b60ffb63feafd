-- ===== src/Metadata/Keys.antt =====
-- crates/qcli-metadata/src/lib.rs: the keys and the values of the cache, with the items of
-- crates/qcli-driver-api/src/lib.rs.

use conflux_query.Base.{
  if◌then◌else◌, Eq, string_eq, ◌==◌, eq_via, nat_eq, ℕ, String, ◌≡◌, refl, Bool, Option, List,
}
use conflux_query.Base.{pair_eq, option_eq}
use conflux_query.Dict.{Dict}

pub record MetadataRequest : Type 0 where
  pub identity : String
  pub target : String
  pub engine : String
  pub properties : Dict String String
  pub catalog : Option String
  pub schema : Option String
  pub pattern_text : Option String

pub record CatalogMetadata : Type 0 where
  pub name : String

pub record SchemaMetadata : Type 0 where
  pub catalog : Option String
  pub name : String

pub data ObjectKind : Type 0 where
  table view other_object : ObjectKind

pub record ObjectMetadata : Type 0 where
  pub catalog : Option String
  pub schema : Option String
  pub name : String
  pub kind : ObjectKind

pub record ColumnMetadata : Type 0 where
  pub name : String
  pub data_type : String
  pub nullable : Option Bool
  pub comment : Option String

pub data Operation : Type 0 where
  catalogs_of schemas_of objects_of : Operation
  describe_of : String → Operation

pub record CacheKey : Type 0 where
  pub identity : String
  pub target : String
  pub engine : String
  pub catalog : Option String
  pub schema : Option String
  pub pattern_text : Option String
  pub properties : ℕ
  pub operation : Operation

pub data CachedValue : Type 0 where
  cached_catalogs : List CatalogMetadata → CachedValue
  cached_schemas : List SchemaMetadata → CachedValue
  cached_objects : List ObjectMetadata → CachedValue
  cached_columns : List ColumnMetadata → CachedValue

pub record CacheEntry : Type 0 where
  pub inserted : ℕ
  pub value : CachedValue

abbrev pub operation_parts : Operation → ℕ × String
operation_parts catalogs_of = (0, "")
operation_parts schemas_of = (1, "")
operation_parts objects_of = (2, "")
operation_parts (describe_of object) = (3, object)

abbrev pub operation_of : ℕ × String → Operation
operation_of (n, object) =
    if n == 0
    then catalogs_of
    else if n == 1
    then schemas_of
    else if n == 2
    then objects_of
    else describe_of object

pub operation_of-parts : (o : Operation) → operation_of (operation_parts o) ≡ o
operation_of-parts catalogs_of = refl
operation_of-parts schemas_of = refl
operation_of-parts objects_of = refl
operation_of-parts (describe_of object) = refl

instance abbrev pub operation_eq : Eq Operation
operation_eq = eq_via operation_parts operation_of operation_of-parts

abbrev pub KeyParts : Type 0
KeyParts =
    (String × String)
    × (String × (ℕ × (Option String × (Option String × (Option String × Operation)))))

abbrev pub key_parts : CacheKey → KeyParts
key_parts k = (
  (k.identity, k.target),
  (k.engine, (k.properties, (k.catalog, (k.schema, (k.pattern_text, k.operation))))),
)

abbrev pub key_of : KeyParts → CacheKey
key_of ((identity, target), (engine, (properties, (catalog, (schema, (p, operation)))))) = record {
  identity = identity;
  target = target;
  engine = engine;
  catalog = catalog;
  schema = schema;
  pattern_text = p;
  properties = properties;
  operation = operation;
}

pub key_of-parts : (k : CacheKey) → key_of (key_parts k) ≡ k
key_of-parts k = refl

instance abbrev pub key_eq : Eq CacheKey
key_eq = eq_via key_parts key_of key_of-parts

-- The hash of the properties is that of the standard library's `DefaultHasher`.
unfoldable pub cache_key : (hash : Dict String String → ℕ) → MetadataRequest → Operation → CacheKey
cache_key hash request operation = record {
  identity = request.identity;
  target = request.target;
  engine = request.engine;
  catalog = request.catalog;
  schema = request.schema;
  pattern_text = request.pattern_text;
  properties = hash request.properties;
  operation = operation;
}
