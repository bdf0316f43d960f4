-- ===== src/Events/Tamper.antt =====
-- What the final hash of an intact chain says about the payloads.
use Prim.Native.String.{◌++◌ as cat, count}
use mathlib.Core.Bool.{false≢true}
use native.Mathlib.Decide.{ℕ_discrete}
use text.Mathlib.TextLemmas.{append_cancel_left, append_inj, length-append}
use squad_team.Prelude.{
  ℕ, ◌+◌, String, ◌≡◌, refl, sym, ap, ◌∙◌, ◌≢◌, ◌⊎◌, inl, inr, Bool-cases, List, [], ◌∷◌, ◌==◌,
  eq_iff, length, arith,
}
use squad_team.Json.{Json}
use squad_team.Canonicalization.{
  Env, Document, utf8, genesis_hash, canonical_json, sha256_hex, compute_event_hash,
}
use squad_team.World.{EventRow}
use squad_team.Events.{last_hash}
use squad_team.Events.Chain.{IsChain, head_hash, last_hash-IsChain}

String-discrete : Discrete String
String-discrete s t = elim (Bool-cases (s == t)) [
  | inl e ↦ yes ((eq_iff s t).0 e)
  | inr e ↦ no (λ p. false≢true (sym e ∙ (eq_iff s t).1 p))
]

Json-discrete : Discrete Json
Json-discrete = hlevel (ℕ_discrete, String-discrete)

Document-discrete : Discrete Document
Document-discrete = hlevel (Json-discrete, String-discrete)

module _ (env : Env) where
  -- The two documents differ and have one digest.
  abbrev pub Collide : Document → Document → Type 0
  Collide x y = (x ≢ y) × (env.sha256 x ≡ env.sha256 y)

  abbrev linked : String → EventRow → String
  linked prev r = cat prev (sha256_hex env (canonical_json env r.payload))

  utf8-injective : {a b : String} → utf8 a ≡ utf8 b → a ≡ b
  utf8-injective h = cc

  -- Equal digests come from equal documents, or show a collision.
  digest_cases : (x y : Document) → sha256_hex env x ≡ sha256_hex env y → Collide x y ⊎ (x ≡ y)
  unfolding sha256_hex
  digest_cases x y h = elim (Document-discrete x y) [
    | yes same ↦ inr same
    | no differ ↦ inl (differ, append_cancel_left "sha256-" _ _ h)
  ]

  -- The payloads of two lists of rows have the same canonical bytes, row by row.
  abbrev pub SamePayloads : List EventRow → List EventRow → Type 0
  SamePayloads [] [] = Unit
  SamePayloads (r ∷ rows) (s ∷ others) =
      (canonical_json env r.payload ≡ canonical_json env s.payload) × SamePayloads rows others
  SamePayloads _ _ = ⊥

  -- At some position, what the two chains hash there collides: the payloads, or the texts of the hash
  -- before and the payload's digest. The first of each are linked to `p` and `q`.
  abbrev pub Clash : String → String → List EventRow → List EventRow → Type 0
  Clash p q (r ∷ rows) (s ∷ others) =
      Collide (canonical_json env r.payload) (canonical_json env s.payload)
      ⊎ Collide (utf8 (linked p r)) (utf8 (linked q s))
      ⊎ Clash (sha256_hex env (utf8 (linked p r))) (sha256_hex env (utf8 (linked q s))) rows others
  Clash p q _ _ = ⊥

  module _ (width : ℕ) (fixed : (x : Document) → count (env.sha256 x) ≡ width) where
    count-sha256_hex : (x : Document) → count (sha256_hex env x) ≡ 7 + width
    unfolding sha256_hex
    count-sha256_hex x = length-append "sha256-" (env.sha256 x) ∙ ap (λ n. 7 + n) (fixed x)

    same_width :
        (p q : String) (r s : EventRow)
        → count (compute_event_hash env p r.payload).1
          ≡ count (compute_event_hash env q s.payload).1
    unfolding compute_event_hash
    same_width p q r s = count-sha256_hex _ ∙ sym (count-sha256_hex _)

    -- One step back along the chain.
    step_back :
        (p q : String) (r s : EventRow)
        → count p ≡ count q
        → (compute_event_hash env p r.payload).1 ≡ (compute_event_hash env q s.payload).1
        → (Collide (canonical_json env r.payload) (canonical_json env s.payload)
            ⊎ Collide (utf8 (linked p r)) (utf8 (linked q s)))
          ⊎ ((p ≡ q) × (canonical_json env r.payload ≡ canonical_json env s.payload))
    unfolding compute_event_hash
    step_back p q r s len h = elim (digest_cases (utf8 (linked p r)) (utf8 (linked q s)) h) [
      | inl clash ↦ inl (inr clash)
      | inr same ↦
          let (heads, tails) = append_inj {s₁ = p} {s₂ = q} (utf8-injective same) len in
          elim (digest_cases (canonical_json env r.payload) (canonical_json env s.payload) tails) [
            | inl clash ↦ inl (inl clash)
            | inr docs ↦ inr (heads, docs)
          ]
    ]

    same-payloads :
        (p q : String) (rows others : List EventRow)
        → count p ≡ count q
        → length rows ≡ length others
        → head_hash env p rows ≡ head_hash env q others
        → Clash p q rows others ⊎ ((p ≡ q) × SamePayloads rows others)
    unfolding compute_event_hash
    same-payloads p q [] [] len n h = inr (h, tt)
    same-payloads p q [] (s ∷ others) len n h = absurd (omega arith)
    same-payloads p q (r ∷ rows) [] len n h = absurd (omega arith)
    same-payloads p q (r ∷ rows) (s ∷ others) len n h =
        let p' = (compute_event_hash env p r.payload).1 in
        let q' = (compute_event_hash env q s.payload).1 in
        elim (same-payloads p' q' rows others (same_width p q r s) (omega arith) h) [
          | inl clash ↦ inl (inr (inr clash))
          | inr (heads, rest) ↦ elim (step_back p q r s len heads) [
            | inl (inl clash) ↦ inl (inl clash)
            | inl (inr clash) ↦ inl (inr (inl clash))
            | inr (same, docs) ↦ inr (same, (docs, rest))
          ]
        ]

    -- Two intact chains with equally many events and the same final hash carry the same payloads,
    -- up to their canonical form, or else at some position what the two chains hash there, the
    -- payload or the text that links it to the hash before, differs and has one SHA-256 digest. All
    -- digests are taken to have the same number of characters.
    pub final_hash-determines :
        (rows others : List EventRow)
        → IsChain env genesis_hash rows
        → IsChain env genesis_hash others
        → length rows ≡ length others
        → last_hash genesis_hash rows ≡ last_hash genesis_hash others
        → Clash genesis_hash genesis_hash rows others ⊎ SamePayloads rows others
    final_hash-determines rows others a b n h =
        let ends : head_hash env genesis_hash rows ≡ head_hash env genesis_hash others =
          sym (last_hash-IsChain env genesis_hash rows a)
          ∙ h
          ∙ last_hash-IsChain env genesis_hash others b in
        elim (same-payloads genesis_hash genesis_hash rows others refl n ends) [
          | inl clash ↦ inl clash
          | inr (_, same) ↦ inr same
        ]
