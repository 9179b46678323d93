-- ===== src/Audit/Confined.antt =====
-- Which entries the index gives to the listing of a workspace (src/store/store.go:
-- listAuditLogIndexed).
use mogenius_operator.Prelude.{
  String, Bool, true, false, Option, none, some, List, [], ◌∷◌, ◌≡◌, ◌⊎◌, refl, sym, ap, ◌∙◌, ◌==◌,
  if◌then◌else◌, contains, All, inl, inr, Bool-cases, eq_iff, subst,
}
use mathlib.Core.Option.{some-injective}
use mogenius_operator.Prelude.Assoc.{Assoc, lookup, lookup-insert}
use mogenius_operator.Audit.{AuditLogEntry}
use mogenius_operator.Audit.Listing.{
  ListRequest, IndexView, Candidate, audit_key_namespace, with_entry, mget_audit_entries,
  of_workspace, ai_candidate, candidates, add_entry, entry_of, entries_of,
}

-- An entry of a map that was loaded is what its key held.
lookup-with_entry :
    (load : String → Option AuditLogEntry) (key k : String) (o : Option AuditLogEntry)
    (r : Assoc AuditLogEntry × List String) (e : AuditLogEntry)
    → load key ≡ o
    → (lookup k r.0 ≡ some e → load k ≡ some e)
    → lookup k (with_entry key o r).0 ≡ some e
    → load k ≡ some e
lookup-with_entry load key k none (entries, stale) e q ih h = ih h
lookup-with_entry load key k (some x) (entries, stale) e q ih h =
    chosen (key == k) refl (sym (lookup-insert key k x entries) ∙ h)
  where
    chosen :
        (b : Bool)
        → (key == k) ≡ b
        → (if b then some x else lookup k entries) ≡ some e
        → load k ≡ some e
    chosen false f g = ih g
    chosen true f g = ap load (sym ((eq_iff key k).0 f)) ∙ q ∙ g

pub mget_audit_entries-lookup :
    (load : String → Option AuditLogEntry) (keys : List String) (k : String) (e : AuditLogEntry)
    → lookup k (mget_audit_entries load keys).0 ≡ some e
    → load k ≡ some e
unfolding mget_audit_entries lookup
mget_audit_entries-lookup load [] k e h = cc h
mget_audit_entries-lookup load (key ∷ keys) k e h =
    lookup-with_entry load key k (load key) (mget_audit_entries load keys) e refl
      (mget_audit_entries-lookup load keys k e) h

module _ (r : ListRequest) where
  -- The entry belongs to the request: its key names one of the namespaces, or it is an AI entry of the
  -- workspace.
  abbrev pub Belongs : String → AuditLogEntry → Type 0
  Belongs key e =
      (contains r.namespaces (audit_key_namespace key) ≡ true)
      ⊎ ((audit_key_namespace key ≡ "ai-chat") × (of_workspace r.workspace_name e ≡ true))

  module _ (ai : Assoc AuditLogEntry) where
    -- A candidate of a listing that is not cluster-wide.
    abbrev pub Permitted : Candidate → Type 0
    Permitted c =
        ((c.entry ≡ none) × (contains r.namespaces (audit_key_namespace c.key) ≡ true))
        ⊎ ((e : AuditLogEntry) × (c.entry ≡ some e)
            × (lookup c.key ai ≡ some e)
            × (audit_key_namespace c.key ≡ "ai-chat")
            × (of_workspace r.workspace_name e ≡ true))

    ai_candidate-Permitted :
        (key : String) (o : Option AuditLogEntry) (rest : List Candidate)
        → lookup key ai ≡ o
        → audit_key_namespace key ≡ "ai-chat"
        → All Permitted rest
        → All Permitted (ai_candidate r.workspace_name key o rest)
    ai_candidate-Permitted key none rest q ns h = h
    ai_candidate-Permitted key (some e) rest q ns h =
        elim (Bool-cases (of_workspace r.workspace_name e)) [
          | inl w ↦ rw w (inr (e, refl, q, ns, w), h)
          | inr w ↦ rw w h
        ]

    pub candidates-Permitted :
        (keys : List String) → r.cluster_wide ≡ false → All Permitted (candidates r ai keys)
    unfolding candidates
    candidates-Permitted [] c = tt
    candidates-Permitted (key ∷ keys) c =
        let ih = candidates-Permitted keys c in
        let ns = audit_key_namespace key in
        elim (Bool-cases (ns == "")) [
          | inl e ↦ rw e ih
          | inr e ↦
              rw (e, c)
                (elim (Bool-cases (ns == "ai-chat")) [
                  | inl f ↦ rw f (
                      ai_candidate-Permitted key (lookup key ai) (candidates r ai keys) refl
                        ((eq_iff ns "ai-chat").0 f) ih)
                  | inr f ↦ rw f (elim (Bool-cases (contains r.namespaces ns)) [
                    | inl g ↦ rw g (inl (refl, g), ih)
                    | inr g ↦ rw g ih
                  ])
                ])
        ]

  -- The entry belongs to the request, and one of the loads of the attempt has read it from its key.
  abbrev pub ReadIn : IndexView → AuditLogEntry → Type 0
  ReadIn view e =
      (key : String) × Belongs key e
      × ((view.first_load key ≡ some e) ⊎ (view.second_load key ≡ some e))

  module _ (view : IndexView) (ai loaded : Assoc AuditLogEntry)
      (ai_read : (k : String) (e : AuditLogEntry)
        → lookup k ai ≡ some e
        → view.first_load k ≡ some e)
      (page_read : (k : String) (e : AuditLogEntry)
        → lookup k loaded ≡ some e
        → view.second_load k ≡ some e) where
    add-ReadIn :
        (c : Candidate) (o p : Option AuditLogEntry) (rest : List AuditLogEntry)
        → c.entry ≡ o
        → lookup c.key loaded ≡ p
        → Permitted ai c
        → All (ReadIn view) rest
        → All (ReadIn view) (add_entry (entry_of o p) rest)
    add-ReadIn c none none rest q l h hs = hs
    add-ReadIn c none (some e) rest q l (inl (a, b)) hs =
        ((c.key, inl b, inr (page_read c.key e l)), hs)
    add-ReadIn c none (some e) rest q l (inr (x, a, f, n, w)) hs = cc (q, a)
    add-ReadIn c (some e) p rest q l (inl (a, b)) hs = cc (q, a)
    add-ReadIn c (some e) p rest q l (inr (x, a, f, n, w)) hs =
        let same : x ≡ e = some-injective x e (sym a ∙ q) in
        (
          (
            c.key,
            inr (n, subst (λ (y : AuditLogEntry). of_workspace r.workspace_name y ≡ true) same w),
            inl (ai_read c.key e (f ∙ ap some same)),
          ),
          hs,
        )

    pub entries_of-ReadIn :
        (cs : List Candidate) → All (Permitted ai) cs → All (ReadIn view) (entries_of loaded cs)
    unfolding entries_of
    entries_of-ReadIn [] h = tt
    entries_of-ReadIn (c ∷ cs) h =
        add-ReadIn c c.entry (lookup c.key loaded) (entries_of loaded cs) refl refl h.0
          (entries_of-ReadIn cs h.1)
