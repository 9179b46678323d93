-- ===== src/Model/Chat.antt =====
-- Which model a chat gets (src/ai/aimodels.go, pickChatModel).
use mogenius_operator.Prelude.{
  String, Bool, true, false, not, ◌&&◌, ◌||◌, Option, none, some, List, [], ◌∷◌, ◌==◌,
  if◌then◌else◌, filter_by, find_first, any, ◌≡◌, refl, arith, Bool-cases, inl, inr, subst, In,
  filter_by-In, In-filter_by, find_first-eq_some, find_first-eq_none,
}
use mogenius_operator.Prelude.Sort.{sort, In-sort, first-In}
use mogenius_operator.Model.{
  AiModel, done, pick_chat_model, is_older, preferred_chat_model, named_chat_model,
}

named_chat_model-done :
    (models : List AiModel) (ref : String) (o : Option AiModel) (m : AiModel)
    → named_chat_model models ref o ≡ done m
    → o ≡ some m
named_chat_model-done models ref none m h = ground arith
named_chat_model-done models ref (some x) m h = cc

-- The model that the preference returns is one of the list, and marked if any of them is.
preferred_chat_model-done :
    (chat : List AiModel) (o : Option AiModel) (m : AiModel)
    → find_first (λ x. x.spec.default) chat ≡ o
    → preferred_chat_model chat o ≡ done m
    → In m chat × ((x : AiModel) → In x chat → x.spec.default ≡ true → m.spec.default ≡ true)
preferred_chat_model-done chat (some x) m e h =
    let found = find_first-eq_some (λ y. y.spec.default) chat x e in
    let same : x ≡ m = cc h in
    (
      subst (λ y. In y chat) same found.0,
      λ y i d. subst (λ (z : AiModel). z.spec.default ≡ true) same found.1,
    )
preferred_chat_model-done chat none m e h = (
  In-sort is_older chat m (first-In (sort is_older chat) m (ground arith)),
  λ y i d. cc (d, find_first-eq_none (λ z. z.spec.default) chat y e i),
)

pick_chat_model_parts :
    (models : List AiModel) (ref : String) (m : AiModel)
    → pick_chat_model models ref ≡ done m
    → In m models
      × (m.spec.chat_enabled ≡ true)
      × ((ref == "") ≡ false → (m.name == ref) ≡ true)
      × ((ref == "") ≡ true
          → (o : AiModel) → In o models
          → o.spec.chat_enabled ≡ true
          → o.spec.default ≡ true
          → m.spec.default ≡ true)
unfolding pick_chat_model
pick_chat_model_parts models ref m h =
    let enabled = λ (x : AiModel). x.spec.chat_enabled in
    let chat = filter_by enabled models in
    elim (Bool-cases (ref == "")) [
      | inl no_ref_given ↦
          let (i, d) =
            preferred_chat_model-done chat (find_first (λ x. x.spec.default) chat) m refl
              (ground arith) in
          let (im, cm) = In-filter_by enabled models m i in
          (
            im,
            cm,
            λ q. cc (q, no_ref_given),
            λ q o io co d_o. d o (filter_by-In enabled models o io co) d_o,
          )
      | inr given ↦
          let found =
            find_first-eq_some (λ x. x.name == ref) chat m
              (named_chat_model-done models ref (find_first (λ x. x.name == ref) chat) m
                (rw given at h)) in
          let (im, cm) = In-filter_by enabled models m found.0 in
          (im, cm, λ q. found.1, λ q. absurd (cc (q, given)))
    ]

-- The model is the one that a reference names, or else marked as default if any candidate is.
abbrev pub answers : List AiModel → String → AiModel → Bool
answers models ref m =
    if ref == ""
    then m.spec.default || not (any (λ o. o.spec.chat_enabled && o.spec.default) models)
    else m.name == ref

no_marked :
    (m : AiModel) (models : List AiModel)
    → m.spec.default ≡ false
    → ((o : AiModel)
        → In o models
        → o.spec.chat_enabled ≡ true
        → o.spec.default ≡ true
        → m.spec.default ≡ true)
    → any (λ (o : AiModel). o.spec.chat_enabled && o.spec.default) models ≡ false
no_marked m [] d h = refl
no_marked m (x ∷ models) d h =
    ground (arith, h x (inl refl), no_marked m models d (λ o i. h o (inr i)))

-- pickChatModel: a model that it returns is in the list and enabled for chat; it has the name that
-- an explicit reference asks for; and without a reference it is marked as default unless no
-- chat-enabled model is.
pub pick_chat_model_sound :
    (models : List AiModel) (ref : String) (m : AiModel)
    → pick_chat_model models ref ≡ done m
    → In m models × (m.spec.chat_enabled ≡ true) × (answers models ref m ≡ true)
pick_chat_model_sound models ref m h =
    let (i, c, named, marked) = pick_chat_model_parts models ref m h in
    (
      i,
      c,
      elim (Bool-cases (ref == "")) [
        | inl e ↦ elim (Bool-cases m.spec.default) [
          | inl d ↦ ground arith
          | inr d ↦ ground (arith, no_marked m models d (marked e))
        ]
        | inr e ↦ ground (arith, named e)
      ],
    )
