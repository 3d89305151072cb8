-- ===== src/System/Tables/Keys.antt =====
-- The keys of the environment, and the lines of resolv.conf.
use yacul.Common.{
  sym, ◌∙◌, inr, refl, inl, ap, ◌++◌, Bool-cases, ◌∷◌, some, ◌==◌, [], if◌then◌else◌, none, ◌≡◌,
  All, Option, List,
}
use yacul.System.Tables.{add_variable, assign, find, add_variables, get_environment}
use yacul.System.Streams.{bytes_eq, Bytes}
use yacul.System.Streams.Reading.{bytes_eq_refl, bytes_eq-eq, cut_at-append, None}

module _ {V : Type 0} where
  find-assign :
      (key k : Bytes) (v : V) (m : List (Bytes × V))
      → find k (assign key v m) ≡ (if bytes_eq key k then some v else find k m)
  unfolding find assign
  find-assign key k v [] = refl
  find-assign key k v ((j, w) ∷ m) = elim (Bool-cases (bytes_eq j key)) [
    | inl same ↦
        let e = bytes_eq-eq j key same in
        elim (Bool-cases (bytes_eq key k)) [
          | inl at ↦ rw (same, at) refl
          | inr past ↦ rw (same, e, past) refl
        ]
    | inr other ↦ elim (Bool-cases (bytes_eq j k)) [
      | inl at ↦ elim (Bool-cases (bytes_eq key k)) [
        | inl same ↦
            let e : j ≡ key = bytes_eq-eq j k at ∙ sym (bytes_eq-eq key k same) in
            absurd (cc (ap (λ (t : Bytes). bytes_eq t key) e, bytes_eq_refl key, other))
        | inr apart ↦ rw (other, at, apart) refl
      ]
      | inr past ↦ rw (other, past) (find-assign key k v m)
    ]
  ]

-- The value of the last string for a key.
abbrev pub last_value : Bytes → List (Bytes × Bytes) → Option Bytes → Option Bytes
last_value k [] old = old
last_value k ((key, v) ∷ kvs) old = last_value k kvs (if bytes_eq key k then some v else old)

abbrev pub print_variables : List (Bytes × Bytes) → List Bytes
print_variables [] = []
print_variables ((key, v) ∷ kvs) = (key ++ b'=' ∷ v) ∷ print_variables kvs

abbrev pub AreKeys : List (Bytes × Bytes) → Type 0
AreKeys = All (λ (kv : Bytes × Bytes). None (λ c. c == b'=') kv.0)

find-add_variable :
    (key v k : Bytes) (m : List (Bytes × Bytes))
    → None (λ c. c == b'=') key
    → find k (add_variable (key ++ b'=' ∷ v) m) ≡ (if bytes_eq key k then some v else find k m)
unfolding add_variable
find-add_variable key v k m h =
    rw (add_variable, cut_at-append b'=' key v h) (find-assign key k v m)

find-add_variables :
    (kvs : List (Bytes × Bytes)) (k : Bytes) (m : List (Bytes × Bytes))
    → AreKeys kvs
    → find k (add_variables (print_variables kvs) m) ≡ last_value k kvs (find k m)
unfolding add_variables
find-add_variables [] k m h = refl
find-add_variables ((key, v) ∷ kvs) k m h =
    rw (find-add_variables kvs k (add_variable (key ++ b'=' ∷ v) m) h.1)
      (ap (last_value k kvs) (find-add_variable key v k m h.0))

-- GetEnvironment of strings "key=value" whose keys hold no "=", also where the values do: a key has the value
-- of its last string, and a key without a string has none.
pub find-get_environment :
    (kvs : List (Bytes × Bytes)) (k : Bytes)
    → AreKeys kvs
    → find k (get_environment (print_variables kvs)) ≡ last_value k kvs none
unfolding get_environment find
find-get_environment kvs k h = find-add_variables kvs k [] h
