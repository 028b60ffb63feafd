-- ===== src/Text/Laws.antt =====
-- Where texts come apart as they were put together.
use Prim.Native.Char.{Char, code}
use Prim.Native.String.{◌++◌}
use text.Mathlib.TextLemmas.{nil-append, cons-append}
use conflux_query.Base.{ℕ, String, ◌≡◌, refl, false, some, arith}
use conflux_query.Text.{has_char, split_once, strip_prefix, split_last}

pub split_once-append :
    (separator : ℕ) (c : Char) (a b : String)
    → code c ≡ separator
    → has_char separator a ≡ false
    → split_once separator (a ++ String.◌∷◌ c b) ≡ some (a, b)
unfolding has_char split_once
split_once-append separator c String.[] b e clean = rw nil-append (ground (arith, e))
split_once-append separator c (String.◌∷◌ d a) b e clean =
    let rest = split_once-append separator c a b e (ground (arith, clean)) in
    rw cons-append (ground (arith, clean, rest))

pub strip_prefix-append : (part s : String) → strip_prefix part (part ++ s) ≡ some s
unfolding strip_prefix
strip_prefix-append String.[] s = rw nil-append refl
strip_prefix-append (String.◌∷◌ p part) s =
    rw cons-append (ground (arith, strip_prefix-append part s))

pub split_last-append :
    (s : String) (c : Char) → split_last (s ++ String.◌∷◌ c String.[]) ≡ some (s, c)
unfolding split_last
split_last-append String.[] c = rw nil-append refl
split_last-append (String.◌∷◌ d s) c = rw cons-append (rw (split_last-append s c, split_last) refl)
