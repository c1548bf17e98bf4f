-- ===== src/Boxproxy/Routes.antt =====
-- The identifier of a sandbox in the host name of a request.
use Prim.Native.String.{[], ◌∷◌, ◌++◌}
use Prim.Native.Char.{Char, code}
use text.Mathlib.TextLemmas.{nil-append, cons-append}
use novita_box.Common.{
  ℕ, ◌≡◌, refl, ap, ◌∙◌, Bool, true, false, Option, some, String, str_eq, ◌==◌, if◌then◌else◌,
  arith,
}
use novita_box.Boxproxy.{split_two, id_of_label, sandbox_id_from_hostname}

-- A host name that carries an identifier: a label in front without a dash or a dot, a dash, the
-- identifier without a dot, and a domain.
abbrev pub lacks : ℕ → String → Bool
lacks sep [] = true
lacks sep (c ∷ s) = if code c == sep then false else lacks sep s

split_two-lacks :
    (sep : ℕ) (head : String) (c : Char) (s : String)
    → lacks sep head ≡ true
    → (code c == sep) ≡ true
    → split_two sep (head ++ (c ∷ s)) ≡ (head, some s)
unfolding split_two
split_two-lacks sep [] c s h e = rw (nil-append (c ∷ s)) (ground (arith, e))
split_two-lacks sep (d ∷ head) c s h e =
    rw (cons-append d head (c ∷ s)) (ground (arith, split_two-lacks sep head c s))

lacks-append :
    (sep : ℕ) (a b : String) → lacks sep a ≡ true → lacks sep b ≡ true → lacks sep (a ++ b) ≡ true
lacks-append sep [] b ha hb = rw (nil-append b) hb
lacks-append sep (c ∷ a) b ha hb = rw (cons-append c a b) (ground (arith, lacks-append sep a b))

abbrev pub dash : Char
dash = "-"

abbrev pub dot : Char
dot = "."

id_of_label-cases : (port id : String) → str_eq port "" ≡ false → id_of_label (port, some id) ≡ id
id_of_label-cases port id h = rw h refl

-- A host name of the form port-identifier.domain leads to the identifier, whatever dashes the
-- identifier has, when the part in front is not empty and has neither a dash nor a dot, and the
-- identifier has no dot.
pub sandbox_id_from_hostname_lem :
    (port id domain : String)
    → str_eq port "" ≡ false
    → lacks 45 port ≡ true
    → lacks 46 port ≡ true
    → lacks 46 id ≡ true
    → sandbox_id_from_hostname ((port ++ (dash ∷ id)) ++ (dot ∷ domain)) ≡ id
unfolding sandbox_id_from_hostname
sandbox_id_from_hostname_lem port id domain filled no_dash no_dot id_no_dot =
    let label : String = port ++ (dash ∷ id) in
    ap (λ (x : String × Option String). id_of_label (split_two 45 x.0))
      (split_two-lacks 46 label dot domain (lacks-append 46 port (dash ∷ id) no_dot id_no_dot) refl)
    ∙ ap id_of_label (split_two-lacks 45 port dash id no_dash refl)
    ∙ id_of_label-cases port id filled
