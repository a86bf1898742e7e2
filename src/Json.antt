-- ===== src/Json.antt =====
-- JSON values as `encoding/json` gives them for `any`: the configuration that Caddy's admin API
-- exchanges with internal/caddyadmin. The keys of an object are in some order.
use caddytower.Prelude.{
  ◌≡◌, refl, ap, Bool, false, Option, none, some, List, [], ◌∷◌, arith, if◌then◌else◌, Bool-cases,
  inl, inr,
}
use caddytower.Prelude.Texts.{Text, text_eq, text_eq_iff, text_eq_refl}

mutual
  pub data Value : Type 0 where
    null : Value
    bool : Bool → Value
    num : Text → Value
    str : Text → Value
    arr : Items → Value
    obj : Fields → Value

  pub data Items : Type 0 where
    nil : Items
    cons : Value → Items → Items

  pub data Fields : Type 0 where
    end : Fields
    field : Text → Value → Fields → Fields

abbrev pub to_list : Items → List Value
to_list nil = []
to_list (cons v vs) = v ∷ to_list vs

abbrev pub of_list : List Value → Items
of_list [] = nil
of_list (v ∷ vs) = cons v (of_list vs)

pub to_list-of_list : (vs : List Value) → to_list (of_list vs) ≡ vs
to_list-of_list [] = refl
to_list-of_list (v ∷ vs) = ap (λ t. v ∷ t) (to_list-of_list vs)

-- `m[key]` and `m[key] = value`.
unfoldable pub get_field : Text → Fields → Option Value
unfolding text_eq
get_field k end = none
get_field k (field j v fs) = if text_eq j k then some v else get_field k fs

unfoldable pub set_field : Text → Value → Fields → Fields
unfolding text_eq
set_field k v end = field k v end
set_field k v (field j w fs) = if text_eq j k then field j v fs else field j w (set_field k v fs)

-- The type assertions `.(map[string]any)`, `.([]any)` and `.(string)`.
abbrev pub as_object : Option Value → Option Fields
as_object (some (obj fs)) = some fs
as_object _ = none

abbrev pub as_array : Option Value → Option Items
as_array (some (arr vs)) = some vs
as_array _ = none

abbrev pub as_string : Option Value → Option Text
as_string (some (str t)) = some t
as_string _ = none

pub get_field-set_self :
    (k : Text) (v : Value) (fs : Fields) → get_field k (set_field k v fs) ≡ some v
unfolding get_field set_field
get_field-set_self k v end = rw text_eq_refl
get_field-set_self k v (field j w fs) = elim (Bool-cases (text_eq j k)) [
  | inl e ↦ rw (e, e)
  | inr e ↦ rw (e, e) (get_field-set_self k v fs)
]

pub get_field-set_ne :
    (k j : Text) (v : Value) (fs : Fields)
    → text_eq k j ≡ false
    → get_field j (set_field k v fs) ≡ get_field j fs
unfolding get_field set_field
get_field-set_ne k j v end h = rw h
get_field-set_ne k j v (field i w fs) h =
    ground (arith, get_field-set_ne k j v fs h, text_eq_iff i k, text_eq_iff i j, text_eq_iff k j)
