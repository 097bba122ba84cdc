-- ===== src/Indexes/Rebuild/Walk.antt =====
-- server/internal/indexes/manager.go: `rebuildLocked` over the whole tree of directories.
use simple_logging.Prelude.{
  ℕ, ◌≡◌, refl, sym, ◌∙◌, List, [], ◌∷◌, Option, none, some, All, Result-cases, ok, err, inl, inr,
  map,
}
use simple_logging.Prelude.Slices.{flat}
use simple_logging.Storage.Layout.{list_dirs, list_segments, DirEntry}
use simple_logging.Indexes.Field.{Codecs, Place}
use simple_logging.Indexes.Rebuild.{
  Index, Outcome, Disk, and_then, each, backfill_file, listed, each_listed, segment_place,
  namespaces_in, rebuild_container, rebuild_pod, rebuild_namespace, rebuild,
}
use simple_logging.Indexes.Rebuild.Segment.{each-append, and_then-ext}

pub All-intro {ℓ κ} : {A : Type ℓ} (P : A → Type κ) (xs : List A) → ((x : A) → P x) → All P xs
All-intro P [] h = tt
All-intro P (x ∷ xs) h = (h x, All-intro P xs h)

-- Where `f` succeeds on `a`, so do the steps `g` on the parts of `a`, with the same result.
abbrev pub Splits :
    {A B S : Type 0} → (A → S → Outcome S) → (B → S → Outcome S) → (A → List B) → A → Type 0
Splits {S} f g parts a = (s t : S) → f a s ≡ (t, none) → each g (parts a) s ≡ (t, none)

pub and_then-none :
    {S : Type 0} (r : Outcome S) (k : S → Outcome S) {t : S}
    → and_then r k ≡ (t, none)
    → (s : S) × (r ≡ (s, none)) × (k s ≡ (t, none))
and_then-none (s, none) k e = (s, refl, e)
and_then-none (s, some x) k e = cc

pub each-Splits :
    {A B S : Type 0} (f : A → S → Outcome S) (g : B → S → Outcome S) (parts : A → List B)
    (xs : List A) (s t : S)
    → All (Splits f g parts) xs
    → each f xs s ≡ (t, none)
    → each g (flat (map parts xs)) s ≡ (t, none)
each-Splits f g parts [] s t h e = e
each-Splits f g parts (x ∷ xs) s t (h, hs) e =
    let (u, first, rest) = and_then-none (f x s) (each f xs) e in
    rw (each-append g (parts x) (flat (map parts xs)) s, h s u first)
      (each-Splits f g parts xs u t hs rest)

module _ (disk : Disk) where
  -- The names that a directory lists, none if that fails.
  unfoldable pub names_of : (List DirEntry → List (List ℕ)) → List (List ℕ) → List (List ℕ)
  names_of names path = elim (listed disk names path) [ err e ↦ [] | ok found ↦ found ]

  each_listed-names_of :
      (names : List DirEntry → List (List ℕ)) (path : List (List ℕ))
      (visit : List ℕ → Index → Outcome Index) (s t : Index)
      → each_listed disk names path visit s ≡ (t, none)
      → each visit (names_of names path) s ≡ (t, none)
  unfolding names_of
  each_listed-names_of names path visit s t e = elim (Result-cases (disk.read_dir path)) [
    | inl (found, read) ↦ rw (read, names_of) (rw (read, each_listed) at e)
    | inr (x, failed) ↦ absurd (cc (rw (failed, each_listed) at e))
  ]

  module _ (parse_date : List ℕ → Option ℕ) where
    unfoldable pub places_in_container : List ℕ → List ℕ → List ℕ → List Place
    places_in_container namespace pod container =
        map (segment_place namespace pod container)
          (names_of (list_segments parse_date) (namespace ∷ pod ∷ container ∷ []))

    unfoldable pub places_in_pod : List ℕ → List ℕ → List Place
    places_in_pod namespace pod =
        flat (map (places_in_container namespace pod) (names_of list_dirs (namespace ∷ pod ∷ [])))

    unfoldable pub places_in_namespace : List ℕ → List Place
    places_in_namespace namespace =
        flat (map (places_in_pod namespace) (names_of list_dirs (namespace ∷ [])))

    -- All segments of the tree, in the order of the walk.
    unfoldable pub places : List Place
    places = flat (map places_in_namespace (names_of namespaces_in []))

module _ (c : Codecs) (disk : Disk) (key logs_root : List ℕ) (parse_date : List ℕ → Option ℕ) where
  abbrev pub fill : Place → Index → Outcome Index
  fill = backfill_file c disk key logs_root

  each-map :
      (namespace pod container : List ℕ) (segments : List (List ℕ)) (s : Index)
      → each (λ segment. fill (segment_place namespace pod container segment)) segments s
        ≡ each fill (map (segment_place namespace pod container) segments) s
  each-map namespace pod container [] s = refl
  each-map namespace pod container (x ∷ xs) s =
      and_then-ext (fill (segment_place namespace pod container x) s)
        (each-map namespace pod container xs)

  container-Splits :
      (namespace pod container : List ℕ)
      → Splits
          (rebuild_container c disk key logs_root parse_date namespace pod)
          fill
          (places_in_container disk parse_date namespace pod)
          container
  unfolding rebuild_container places_in_container
  container-Splits namespace pod container s t e =
      sym (each-map namespace pod container _ s)
      ∙ each_listed-names_of disk (list_segments parse_date) (namespace ∷ pod ∷ container ∷ [])
          (λ segment. fill (segment_place namespace pod container segment)) s t e

  -- The loop over what a directory lists.
  listed-Splits :
      (names : List DirEntry → List (List ℕ)) (path : List (List ℕ))
      (visit : List ℕ → Index → Outcome Index) (parts : List ℕ → List Place) (s t : Index)
      → ((name : List ℕ) → Splits visit fill parts name)
      → each_listed disk names path visit s ≡ (t, none)
      → each fill (flat (map parts (names_of disk names path))) s ≡ (t, none)
  listed-Splits names path visit parts s t h e =
      each-Splits visit fill parts (names_of disk names path) s t
        (All-intro (Splits visit fill parts) (names_of disk names path) h)
        (each_listed-names_of disk names path visit s t e)

  pod-Splits :
      (namespace pod : List ℕ)
      → Splits
          (rebuild_pod c disk key logs_root parse_date namespace)
          fill
          (places_in_pod disk parse_date namespace)
          pod
  unfolding rebuild_pod places_in_pod
  pod-Splits namespace pod s t e =
      listed-Splits list_dirs (namespace ∷ pod ∷ [])
        (rebuild_container c disk key logs_root parse_date namespace pod)
        (places_in_container disk parse_date namespace pod) s t (container-Splits namespace pod) e

  namespace-Splits :
      (namespace : List ℕ)
      → Splits
          (rebuild_namespace c disk key logs_root parse_date)
          fill
          (places_in_namespace disk parse_date)
          namespace
  unfolding rebuild_namespace places_in_namespace
  namespace-Splits namespace s t e =
      listed-Splits list_dirs (namespace ∷ [])
        (rebuild_pod c disk key logs_root parse_date namespace)
        (places_in_pod disk parse_date namespace) s t (pod-Splits namespace) e

  pub rebuild-places :
      (left : Option Index) (t : Index)
      → rebuild c disk key logs_root parse_date left ≡ (t, none)
      → each fill (places disk parse_date) (λ n. none) ≡ (t, none)
  unfolding rebuild places
  rebuild-places (some left) t e = absurd (cc e)
  rebuild-places none t e =
      listed-Splits namespaces_in [] (rebuild_namespace c disk key logs_root parse_date)
        (places_in_namespace disk parse_date) (λ n. none) t namespace-Splits e
