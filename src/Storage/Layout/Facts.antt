-- ===== src/Storage/Layout/Facts.antt =====
-- What a pod's meta.json holds after updates by its collectors, in any order.
use simple_logging.Prelude.{
  ℕ, ◌≡◌, refl, ◌∙◌, Bool, true, false, ◌&&◌, List, [], ◌∷◌, Option, none, some, if◌then◌else◌,
  Bool-cases, inl, inr, arith,
}
use simple_logging.Storage.Layout.{
  PodMeta, zero_meta, contains_string, see_container, set_owner, read_pod_meta, write_pod_meta,
  update_meta, record_container_seen, record_owner,
}
use simple_logging.Storage.Layout.Changes.{
  MetaUpdate, container_seen, owner_recorded, calls_of, effective, first_time, latest_time,
  seen_names, last_owner, change_of, changed, changed-first_seen, changed-last_seen, changed-owner,
  changed-names,
}

module _ {Doc : Type 0} (marshal : PodMeta → Doc) where
  -- What a file holds that these updates have changed.
  abbrev pub HoldsFacts : List MetaUpdate → Option Doc → Type 0
  HoldsFacts us none = us ≡ []
  HoldsFacts us (some bytes) =
      (m : PodMeta) × (bytes ≡ marshal m)
      × (m.first_seen ≡ first_time us)
      × (m.last_seen ≡ latest_time us)
      × ((m.owner_kind, m.owner_name, m.cron_job_name) ≡ last_owner ([], [], []) us)
      × ((c : List ℕ) → contains_string m.containers c ≡ contains_string (seen_names us) c)

module _ (namespace pod : List ℕ) where
  module _ {Doc : Type 0} (marshal : PodMeta → Doc) (unmarshal : Doc → Option PodMeta)
      (round_trip : (m : PodMeta) → unmarshal (marshal m) ≡ some m) where
    abbrev update_file : MetaUpdate → Option Doc → Option Doc
    update_file (container_seen container at calls) file =
        (record_container_seen marshal unmarshal namespace pod container at calls file).1
    update_file (owner_recorded kind name cron_job calls) file =
        (record_owner marshal unmarshal namespace pod kind name cron_job calls file).1

    unfoldable pub run_updates : List MetaUpdate → Option Doc → Option Doc
    run_updates [] file = file
    run_updates (u ∷ us) file = run_updates us (update_file u file)

    -- The file says what `m` says.
    data IsAt : Option Doc → PodMeta → Type 0 where
      at_none : IsAt none (zero_meta namespace pod)
      at_some : (m : PodMeta) → IsAt (some (marshal m)) m

    update_meta-file :
        (change : PodMeta → PodMeta) (readable written : Bool) (file : Option Doc) (m : PodMeta)
        → IsAt file m
        → (update_meta marshal unmarshal namespace pod change
            (record { readable = readable; written = written })
            file).1
          ≡ (if readable && written then some (marshal (change m)) else file)
    unfolding update_meta read_pod_meta write_pod_meta
    update_meta-file change false written file m h = refl
    update_meta-file change true true _ _ at_none = refl
    update_meta-file change true false _ _ at_none = refl
    update_meta-file change true true _ _ (at_some m) =
        rw (update_meta, read_pod_meta, round_trip m, write_pod_meta) refl
    update_meta-file change true false _ _ (at_some m) =
        rw (update_meta, read_pod_meta, round_trip m, write_pod_meta) refl

    update_file-file :
        (u : MetaUpdate) (file : Option Doc) (m : PodMeta)
        → IsAt file m
        → update_file u file ≡ (
            if (calls_of u).readable && (calls_of u).written
            then some (marshal (change_of namespace pod u m))
            else file)
    unfolding record_container_seen record_owner
    update_file-file (container_seen container at calls) file m h =
        update_meta-file (see_container namespace pod container at) calls.readable calls.written
          file m h
    update_file-file (owner_recorded kind name cron_job calls) file m h =
        update_meta-file (set_owner namespace pod kind name cron_job) calls.readable calls.written
          file m h

    abbrev file_after : Option Doc → PodMeta → List MetaUpdate → Option Doc
    file_after file m [] = file
    file_after file m (u ∷ us) = some (marshal (changed namespace pod m (u ∷ us)))

    file_after-some :
        (m : PodMeta) (us : List MetaUpdate)
        → file_after (some (marshal m)) m us ≡ some (marshal (changed namespace pod m us))
    file_after-some m [] = refl
    file_after-some m (u ∷ us) = refl

    run_updates-file :
        (us : List MetaUpdate) (file : Option Doc) (m : PodMeta)
        → IsAt file m
        → run_updates us file ≡ file_after file m (effective us)
    unfolding run_updates effective
    run_updates-file [] file m h = refl
    run_updates-file (u ∷ us) file m h =
        elim (Bool-cases ((calls_of u).readable && (calls_of u).written)) [
          | inl works ↦
              let m' = change_of namespace pod u m in
              let updated : update_file u file ≡ some (marshal m') =
                update_file-file u file m h ∙ rw works refl in
              rw (updated, works)
                (run_updates-file us (some (marshal m')) m' (at_some m')
                  ∙ file_after-some m' (effective us))
          | inr fails ↦
              let kept : update_file u file ≡ file = update_file-file u file m h ∙ rw fails refl in
              rw (kept, fails) (run_updates-file us file m h)
        ]

    file_after-HoldsFacts :
        (us : List MetaUpdate)
        → HoldsFacts marshal us (file_after none (zero_meta namespace pod) us)
    unfolding contains_string
    file_after-HoldsFacts [] = refl
    file_after-HoldsFacts (u ∷ us) =
        let empty = zero_meta namespace pod in
        let all = u ∷ us in
        (
          changed namespace pod empty all,
          refl,
          changed-first_seen namespace pod all empty ∙ ground arith,
          changed-last_seen namespace pod all empty ∙ omega arith,
          changed-owner namespace pod all empty,
          λ c. changed-names namespace pod all empty c,
        )

    -- If decoding inverts encoding: after any sequence of RecordOwner and recordContainerSeen
    -- calls for a pod without a meta.json, whatever calls fail, either no call succeeded and there
    -- is no file, or the file has: the first time above 0 and the latest time of the successful
    -- container calls, exactly the names of their containers, and the owner of the last successful
    -- owner call.
    pub run_updates-HoldsFacts :
        (updates : List MetaUpdate)
        → HoldsFacts marshal (effective updates) (run_updates updates none)
    run_updates-HoldsFacts updates =
        rw (run_updates-file updates none (zero_meta namespace pod) at_none)
          (file_after-HoldsFacts (effective updates))
