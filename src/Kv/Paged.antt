-- ===== src/Kv/Paged.antt =====
-- Pages of a listing (src/valkeyclient/valkeyclient.go: GetObjectsByPrefixWithSizeAndNs).
use mogenius_operator.Prelude.{
  ℕ, ◌+◌, String, Bool, false, Option, none, some, List, [], ◌∷◌, ◌≡◌, refl, sym, ap, ◌∙◌, ◌==◌,
  append, inl, inr, Bool-cases,
}
use mogenius_operator.Kv.Window.{window-add}
use mogenius_operator.Kv.Pages.{
  Objects, Listing, window, load_objects, loaded, parsed, selected_keys,
  get_objects_by_prefix_with_size_and_ns,
}

module _ {T : Type 0} (read : String → Option String) (parse : String → Option T) where
  -- The objects of two lists of keys, read together without an error.
  record Joined (whole left right : Objects T) : Type 0 where
    joined : whole.objects ≡ append left.objects right.objects
    left_works : left.failed ≡ false
    right_works : right.failed ≡ false

  parsed-Joined :
      (o : Option T) (whole left right : Objects T)
      → (whole.failed ≡ false → Joined whole left right)
      → (parsed read parse o whole).failed ≡ false
      → Joined (parsed read parse o whole) (parsed read parse o left) right
  parsed-Joined none whole left right ih e = cc e
  parsed-Joined (some x) whole left right ih e =
      let j = ih e in
      record {
        joined = ap (λ (l : List T). x ∷ l) j.joined;
        left_works = j.left_works;
        right_works = j.right_works;
      }

  loaded-Joined :
      (o : Option String) (whole left right : Objects T)
      → (whole.failed ≡ false → Joined whole left right)
      → (loaded read parse o whole).failed ≡ false
      → Joined (loaded read parse o whole) (loaded read parse o left) right
  loaded-Joined none whole left right ih e = ih e
  loaded-Joined (some text) whole left right ih e = elim (Bool-cases (text == "")) [
    | inl q ↦ rw q (ih (rw q at e))
    | inr q ↦ rw q (parsed-Joined (parse text) whole left right ih (rw q at e))
  ]

  load_objects-append :
      (xs ys : List String)
      → (load_objects read parse (append xs ys)).failed ≡ false
      → Joined
          (load_objects read parse (append xs ys))
          (load_objects read parse xs)
          (load_objects read parse ys)
  unfolding load_objects
  load_objects-append [] ys e = record { joined = refl; left_works = refl; right_works = e }
  load_objects-append (x ∷ xs) ys e =
      loaded-Joined (read x) (load_objects read parse (append xs ys)) (load_objects read parse xs)
        (load_objects read parse ys) (load_objects-append xs ys) e

  -- Two adjacent pages and the page that covers both.
  pub record Tiles (whole left right : Listing T) : Type 0 where
    pub pages : whole.page ≡ append left.page right.page
    pub left_works : left.failed ≡ false
    pub right_works : right.failed ≡ false
    pub left_total : left.total ≡ whole.total
    pub right_total : right.total ≡ whole.total

  -- On one result of a scan, in one order of its keys: where a page can be read, the two adjacent
  -- pages that make it up can be, with the same total, and their objects follow one another without
  -- a gap or an overlap, also behind the end of the list. Two calls that scan anew may get another
  -- order.
  pub pages_tile :
      (namespaces : List String) (cluster_wide : Bool) (keys : List String) (offset a b : ℕ)
      → (get_objects_by_prefix_with_size_and_ns read parse
          (a + b)
          offset
          namespaces
          cluster_wide
          (some keys)).failed
        ≡ false
      → Tiles
          (get_objects_by_prefix_with_size_and_ns read parse
            (a + b)
            offset
            namespaces
            cluster_wide
            (some keys))
          (get_objects_by_prefix_with_size_and_ns read parse a offset namespaces cluster_wide
            (some keys))
          (get_objects_by_prefix_with_size_and_ns read parse b
            (offset + a)
            namespaces
            cluster_wide
            (some keys))
  unfolding get_objects_by_prefix_with_size_and_ns
  pages_tile namespaces cluster_wide keys offset a b e =
      let selected = selected_keys namespaces cluster_wide keys in
      let w = window-add offset a b selected in
      let j =
        load_objects-append (window offset a selected) (window (offset + a) b selected)
          (ap (λ (l : List String). (load_objects read parse l).failed) (sym w) ∙ e) in
      record {
        pages = ap (λ (l : List String). (load_objects read parse l).objects) w ∙ j.joined;
        left_works = j.left_works;
        right_works = j.right_works;
        left_total = refl;
        right_total = refl;
      }
