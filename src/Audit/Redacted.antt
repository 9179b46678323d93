-- ===== src/Audit/Redacted.antt =====
-- What the redaction of a payload leaves (src/store/store.go: redactSensitiveKeys).
use mogenius_operator.Prelude.{
  String, Bool, true, false, not, ◌&&◌, ◌≡◌, ◌⊎◌, refl, sym, ap, ◌∙◌, ◌==◌, inl, inr, Bool-cases,
  eq_iff,
}
use mogenius_operator.Audit.{Json, Items, Fields, raw, text, items, object, nil, cons, end, field}
use mogenius_operator.Audit.Redact.{
  redacted_text, holds_text, redact_sensitive_keys, redact_items, redact_fields,
}

module _ (sensitive : String → Bool) where
  -- A text under a sensitive key is empty, or the mark of a redaction.
  abbrev pub Masked : Json → Type 0
  Masked (text s) = (s ≡ "") ⊎ (s ≡ redacted_text)
  Masked (raw _) = Unit
  Masked (items _) = Unit
  Masked (object _) = Unit

abbrev mutual
  -- Every sensitive key, at any depth, holds a masked value.
  pub Clean : (String → Bool) → Json → Type 0
  Clean sensitive (raw s) = Unit
  Clean sensitive (text s) = Unit
  Clean sensitive (items xs) = CleanItems sensitive xs
  Clean sensitive (object fs) = CleanFields sensitive fs

  pub CleanItems : (String → Bool) → Items → Type 0
  CleanItems sensitive nil = Unit
  CleanItems sensitive (cons x xs) = Clean sensitive x × CleanItems sensitive xs

  pub CleanFields : (String → Bool) → Fields → Type 0
  CleanFields sensitive end = Unit
  CleanFields sensitive (field k v rest) =
      (sensitive k ≡ true → Masked sensitive v) × Clean sensitive v × CleanFields sensitive rest

module _ (sensitive : String → Bool) where
  kept_text :
      (k : String) (v : Json)
      → sensitive k ≡ true
      → (sensitive k && holds_text v) ≡ false
      → Masked sensitive (redact_sensitive_keys sensitive v)
  unfolding redact_sensitive_keys
  kept_text k (raw s) q e = tt
  kept_text k (items xs) q e = tt
  kept_text k (object fs) q e = tt
  kept_text k (text s) q e = elim (Bool-cases (s == "")) [
    | inl f ↦ inl ((eq_iff s "").0 f)
    | inr f ↦ let bad : true ≡ false = rw (q, f) at e in cc bad
  ]

  field_Clean :
      (k : String) (v : Json) (rest : Fields)
      → Clean sensitive (redact_sensitive_keys sensitive v)
      → CleanFields sensitive (redact_fields sensitive rest)
      → CleanFields sensitive (redact_fields sensitive (field k v rest))
  unfolding redact_fields
  field_Clean k v rest c cs = elim (Bool-cases (sensitive k && holds_text v)) [
    | inl e ↦ rw e (λ q. inr refl, tt, cs)
    | inr e ↦ rw e (λ q. kept_text k v q e, c, cs)
  ]

mutual
  unfolding redact_sensitive_keys redact_items redact_fields

  redact-Clean :
      (sensitive : String → Bool) (j : Json) → Clean sensitive (redact_sensitive_keys sensitive j)
  redact-Clean sensitive (raw s) = tt
  redact-Clean sensitive (text s) = tt
  redact-Clean sensitive (items xs) = items-Clean sensitive xs
  redact-Clean sensitive (object fs) = fields-Clean sensitive fs

  items-Clean :
      (sensitive : String → Bool) (xs : Items) → CleanItems sensitive (redact_items sensitive xs)
  items-Clean sensitive nil = tt
  items-Clean sensitive (cons x xs) = (redact-Clean sensitive x, items-Clean sensitive xs)

  fields-Clean :
      (sensitive : String → Bool) (fs : Fields) → CleanFields sensitive (redact_fields sensitive fs)
  fields-Clean sensitive end = tt
  fields-Clean sensitive (field k v rest) =
      field_Clean sensitive k v rest (redact-Clean sensitive v) (fields-Clean sensitive rest)

module _ (sensitive : String → Bool) where
  no_text : (b : Bool) → (b && false) ≡ true → ⊥
  no_text true e = cc e
  no_text false e = cc e

  first_holds : (b c : Bool) → (b && c) ≡ true → b ≡ true
  first_holds true c e = refl
  first_holds false c e = e

  empty : (s : String) → s ≡ "" → (s == "") ≡ true
  empty s q = (eq_iff s "").1 q

  -- A masked text that is not empty is the mark already.
  mark :
      (k : String) (v : Json)
      → (sensitive k ≡ true → Masked sensitive v)
      → (sensitive k && holds_text v) ≡ true
      → text redacted_text ≡ v
  mark k (raw s) m e = elim (no_text (sensitive k) e) [ ]
  mark k (items xs) m e = elim (no_text (sensitive k) e) [ ]
  mark k (object fs) m e = elim (no_text (sensitive k) e) [ ]
  mark k (text s) m e = elim (m (first_holds (sensitive k) (not (s == "")) e)) [
    | inl q ↦ elim (no_text (sensitive k) (rw (empty s q) at e)) [ ]
    | inr q ↦ ap text (sym q)
  ]

  field_same :
      (k : String) (v : Json) (rest : Fields)
      → (sensitive k ≡ true → Masked sensitive v)
      → redact_sensitive_keys sensitive v ≡ v
      → redact_fields sensitive rest ≡ rest
      → redact_fields sensitive (field k v rest) ≡ field k v rest
  unfolding redact_fields
  field_same k v rest m c cs = elim (Bool-cases (sensitive k && holds_text v)) [
    | inl e ↦ rw e (
        ap (λ (x : Json). field k x (redact_fields sensitive rest)) (mark k v m e)
        ∙ ap (field k v) cs)
    | inr e ↦
        rw e (ap (λ (x : Json). field k x (redact_fields sensitive rest)) c ∙ ap (field k v) cs)
  ]

mutual
  unfolding redact_sensitive_keys redact_items redact_fields

  redact-same :
      (sensitive : String → Bool) (j : Json)
      → Clean sensitive j
      → redact_sensitive_keys sensitive j ≡ j
  redact-same sensitive (raw s) c = refl
  redact-same sensitive (text s) c = refl
  redact-same sensitive (items xs) c = ap items (items-same sensitive xs c)
  redact-same sensitive (object fs) c = ap object (fields-same sensitive fs c)

  items-same :
      (sensitive : String → Bool) (xs : Items)
      → CleanItems sensitive xs
      → redact_items sensitive xs ≡ xs
  items-same sensitive nil c = refl
  items-same sensitive (cons x xs) c =
      ap (λ (y : Json). cons y (redact_items sensitive xs)) (redact-same sensitive x c.0)
      ∙ ap (cons x) (items-same sensitive xs c.1)

  fields-same :
      (sensitive : String → Bool) (fs : Fields)
      → CleanFields sensitive fs
      → redact_fields sensitive fs ≡ fs
  fields-same sensitive end c = refl
  fields-same sensitive (field k v rest) c =
      field_same sensitive k v rest c.0 (redact-same sensitive v c.1)
        (fields-same sensitive rest c.2)

-- The redaction of a payload leaves, at any depth, under a key that is sensitive only the mark of a
-- redaction, the empty text, or a value that is no text, and redacting again changes nothing.
pub redact_sensitive_keys-Clean :
    (sensitive : String → Bool) (j : Json)
    → Clean sensitive (redact_sensitive_keys sensitive j)
      × (redact_sensitive_keys sensitive (redact_sensitive_keys sensitive j)
          ≡ redact_sensitive_keys sensitive j)
redact_sensitive_keys-Clean sensitive j = (
  redact-Clean sensitive j,
  redact-same sensitive (redact_sensitive_keys sensitive j) (redact-Clean sensitive j),
)
