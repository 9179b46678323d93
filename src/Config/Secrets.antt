-- ===== src/Config/Secrets.antt =====
-- What callbacks learn of secrecy (src/config/config.go: isSecret, runOnChangedCallbacks).
use mogenius_operator.Prelude.{
  String, Bool, true, false, Option, none, some, List, [], ◌∷◌, ◌≡◌, refl, sym, ◌∙◌, ◌==◌,
  if◌then◌else◌, ◌⊎◌, Bool-cases, inl, inr, eq_iff, All, subst,
}
use mogenius_operator.Prelude.Assoc.{Assoc, lookup, insert, lookup-insert}
use mogenius_operator.Config.{
  ConfigDeclaration, ConfigValue, OnChangeCallbackConfig, Notification, Config,
}
use mogenius_operator.Config.Changes.{flag_of, notify, waits_for}
use mogenius_operator.Config.Reached.{Kept}

abbrev pub flag : Option ConfigValue → Bool
flag none = false
flag (some cv) = cv.declaration.is_secret

-- isSecret, which walks the whole map, finds the declaration of its key.
pub secret_flag_lem :
    (key : String) (m : Assoc ConfigValue) → All Kept m → flag_of key m ≡ flag (lookup key m)
unfolding lookup
secret_flag_lem key [] h = refl
secret_flag_lem key ((k, cv) ∷ rest) h = rw h.0.0 (elim (Bool-cases (k == key)) [
  | inl e ↦ rw e refl
  | inr e ↦ rw e (secret_flag_lem key rest h.1)
])

pub notify-All :
    (P : Notification → Type 0) (key v : String) (b : Bool) (cbs : List OnChangeCallbackConfig)
    (done : List Notification)
    → ((name : String) → P (record { called = name; changed_key = key; new_value = v; secret = b }))
    → All P done
    → All P (notify key v b cbs done)
unfolding notify
notify-All P key v b [] done p h = h
notify-All P key v b (cb ∷ rest) done p h =
    chosen (waits_for key cb) (λ others k. notify-All P key v b rest others p k)
  where
    chosen :
        (w : Bool)
        → ((others : List Notification) → All P others → All P (notify key v b rest others))
        → All P (
            notify key v b rest (
              if w
              then record { called = cb.callback; changed_key = key; new_value = v; secret = b }
                ∷ done
              else done))
    chosen true go =
        go (record { called = cb.callback; changed_key = key; new_value = v; secret = b } ∷ done)
          (p cb.callback, h)
    chosen false go = go done h

abbrev pub declaration : Option ConfigValue → Option ConfigDeclaration
declaration none = none
declaration (some cv) = some cv.declaration

-- The declaration of a key, in the map.
abbrev pub declaration_of : String → Assoc ConfigValue → Option ConfigDeclaration
declaration_of key m = declaration (lookup key m)

-- Every declaration of the first map is in the second.
abbrev pub Extends : Assoc ConfigValue → Assoc ConfigValue → Type 0
Extends m after =
    (key : String) (d : ConfigDeclaration)
    → declaration_of key m ≡ some d
    → declaration_of key after ≡ some d

-- The call names the secrecy that the key is declared with.
abbrev pub Truthful : Config → Notification → Type 0
Truthful c n =
    (d : ConfigDeclaration) × (declaration_of n.changed_key c.values ≡ some d)
    × (n.secret ≡ d.is_secret)

pub Truthful-Extends :
    (c after : Config) (ns : List Notification)
    → Extends c.values after.values
    → All (Truthful c) ns
    → All (Truthful after) ns
Truthful-Extends c after [] e h = tt
Truthful-Extends c after (n ∷ ns) e h =
    let (d, found, same) = h.0 in
    ((d, e n.changed_key d found, same), Truthful-Extends c after ns e h.1)

pub declaration-insert :
    (k key : String) (cv : ConfigValue) (m : Assoc ConfigValue)
    → declaration_of key (insert k cv m)
      ≡ (if k == key then some cv.declaration else declaration_of key m)
declaration-insert k key cv m = rw (lookup-insert k key cv m) (chosen (k == key))
  where
    chosen :
        (b : Bool)
        → declaration (if b then some cv else lookup key m)
          ≡ (if b then some cv.declaration else declaration (lookup key m))
    chosen true = refl
    chosen false = refl

pub insert-Extends :
    (k : String) (cv : ConfigValue) (m : Assoc ConfigValue)
    → (declaration_of k m ≡ none) ⊎ (declaration_of k m ≡ some cv.declaration)
    → Extends m (insert k cv m)
insert-Extends k cv m o key d e = elim (Bool-cases (k == key)) [
  | inl q ↦
      let p : k ≡ key = (eq_iff k key).0 q in
      declaration-insert k key cv m
      ∙ rw q (same (subst (λ (j : String). declaration_of j m ≡ some d) (sym p) e) o)
  | inr q ↦ declaration-insert k key cv m ∙ rw q e
]
  where
    same :
        declaration_of k m ≡ some d
        → (declaration_of k m ≡ none) ⊎ (declaration_of k m ≡ some cv.declaration)
        → some cv.declaration ≡ some d
    same f (inl none_) = cc (f, none_)
    same f (inr q) = sym q ∙ f
