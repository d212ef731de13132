-- ===== src/Wire/Util.antt =====
-- observer_common/src/util.rs: conversions of lists and of optional and required fields. A
-- `TryFrom` is a function into `Result`, a `From` a function.
use gossip_observer.Prelude.{
  ◌≡◌, refl, List, [], ◌∷◌, Option, none, some, Result, ok, err, ◌>>=◌, ok_or, map, All,
}
use gossip_observer.Prelude.Text.{Text}

-- `anyhow::Error`: a missing field with its name, or a value that is no text of its type.
pub data ConvertError : Type 0 where
  is_required : Text → ConvertError
  invalid : ConvertError

module _ {ℓ κ} {T : Type ℓ} {U : Type κ} where
  unfoldable pub try_convert_vec :
      (T → Result U ConvertError) → List T → Result (List U) ConvertError
  try_convert_vec try_from [] = ok []
  try_convert_vec try_from (t ∷ ts) = do
    u ← try_from t
    us ← try_convert_vec try_from ts
    ok (u ∷ us)

  unfoldable pub try_convert_vec_permissive : (T → Result U ConvertError) → List T → List U
  try_convert_vec_permissive try_from [] = []
  try_convert_vec_permissive try_from (t ∷ ts) = elim (try_from t) [
    | ok u ↦ u ∷ try_convert_vec_permissive try_from ts
    | err _ ↦ try_convert_vec_permissive try_from ts
  ]

  unfoldable pub convert_vec : (T → U) → List T → List U
  convert_vec = map

  unfoldable pub convert_option :
      (T → Result U ConvertError) → Option T → Result (Option U) ConvertError
  convert_option try_from none = ok none
  convert_option try_from (some t) = do u ← try_from t; ok (some u)

  unfoldable pub convert_required_field :
      (T → Result U ConvertError) → Option T → Text → Result U ConvertError
  convert_required_field try_from field field_name = do
    t ← ok_or field (ConvertError.is_required field_name)
    try_from t

-- A list whose elements are all read is read.
pub try_convert_vec-map {ℓ κ μ} :
    {T : Type ℓ} {U : Type κ} {V : Type μ} (from : V → T) (to : V → U)
    (try_from : T → Result U ConvertError) (vs : List V)
    → All (λ v. try_from (from v) ≡ ok (to v)) vs
    → try_convert_vec try_from (convert_vec from vs) ≡ ok (map to vs)
unfolding try_convert_vec convert_vec
try_convert_vec-map from to try_from [] h = refl
try_convert_vec-map from to try_from (v ∷ vs) (h, hs) =
    rw (h, try_convert_vec-map from to try_from vs hs) refl

pub try_convert_vec-convert_vec {ℓ κ} :
    {T : Type ℓ} {U : Type κ} (from : U → T) (try_from : T → Result U ConvertError) (us : List U)
    → All (λ u. try_from (from u) ≡ ok u) us
    → try_convert_vec try_from (convert_vec from us) ≡ ok us
unfolding try_convert_vec convert_vec
try_convert_vec-convert_vec from try_from [] h = refl
try_convert_vec-convert_vec from try_from (u ∷ us) (h, hs) =
    rw (h, try_convert_vec-convert_vec from try_from us hs) refl
