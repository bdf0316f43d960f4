-- ===== src/Json/Lookup.antt =====
-- Lookup in a dictionary after `d[k] = v`.
use squad_team.Prelude.{
  String, ◌≡◌, refl, inl, inr, true, false, Bool-cases, some, ◌==◌, eq_refl, eq_iff, arith,
}
use squad_team.Json.{Json, Fields, end, field, get, set_field}

pub get-set_field_self : (k : String) (v : Json) (d : Fields) → get (set_field k v d) k ≡ some v
unfolding set_field
get-set_field_self k v end = rw (eq_refl k) refl
get-set_field_self k v (field j u d) = elim (Bool-cases (j == k)) [
  | inl e ↦ rw (e, set_field, e) refl
  | inr e ↦ rw (e, set_field, e) (get-set_field_self k v d)
]

apart_from : (i k j : String) → (i == k) ≡ true → (k == j) ≡ false → (i == j) ≡ false
apart_from i k j e apart = ground (arith, eq_iff i k, eq_iff k j, eq_iff i j)

pub get-set_field_other :
    (k j : String) (v : Json) (d : Fields) → (k == j) ≡ false → get (set_field k v d) j ≡ get d j
unfolding set_field
get-set_field_other k j v end apart = rw apart refl
get-set_field_other k j v (field i u d) apart = elim (Bool-cases (i == k)) [
  | inl e ↦ rw (e, set_field, apart_from i k j e apart) refl
  | inr e ↦
      rw (e, set_field)
        (elim (Bool-cases (i == j)) [
          | inl f ↦ rw f refl
          | inr f ↦ rw f (get-set_field_other k j v d apart)
        ])
]
