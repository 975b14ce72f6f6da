-- ===== src/Dht/Disk/Restart.antt =====
-- dht.rs: what a `FileDht` that is opened again answers.
use post_urbit.Prelude.{
  ℕ, Bytes, ◌≤◌, Option, none, some, List, [], ◌∷◌, ◌≡◌, refl, sym, ap, ◌∙◌, if◌then◌else◌, length,
  nat_eq, list_eq, ◌==◌, ok, retain, map, and_then_ok, arith, Bool-cases, List-cases, Option-cases,
  inl, inr, list_beq_iff,
}
use post_urbit.Prelude.Dict
use post_urbit.Prelude.Dict.{Dict}
use post_urbit.Dht.Disk.{
  DhtValue, DhtRecord, File, readable, unreadable, carried_out, FileDht, load_from_disk_sync,
  with_time, get_all, live, cached, is_expired, load_entry, sync, set_values, uncache, save_to_disk,
  delete_from_disk, remove_file,
}

-- the values in the file of a key
abbrev pub saved : Dict Bytes File → Bytes → List DhtValue
saved files key = elim (Dict.get files key) [
  | none ↦ []
  | some unreadable ↦ []
  | some (readable r) ↦ r.values
]

abbrev values_of : Option DhtRecord → List DhtValue
values_of none = []
values_of (some r) = r.values

-- the files hold what the cache holds, but for expired values
pub record IsSaved (now : ℕ) (s : FileDht) : Type 0 where
  pub distinct : Dict.IsDistinct s.files
  pub agree : (key : Bytes) → live now (cached s key) ≡ live now (saved s.files key)

pub live_later :
    (now later : ℕ) (vs : List DhtValue) → now ≤ later → live later (live now vs) ≡ live later vs
unfolding retain is_expired live
live_later now later [] h = refl
live_later now later (v ∷ vs) h = ground (arith, live_later now later vs h)

pub IsSaved-later : (now later : ℕ) (s : FileDht) → now ≤ later → IsSaved now s → IsSaved later s
IsSaved-later now later s h i = record {
  distinct = i.distinct;
  agree = λ key.
      sym (live_later now later (cached s key) h)
      ∙ ap (live later) (i.agree key)
      ∙ live_later now later (saved s.files key) h;
}

-- key now has these values, in the cache and in its file
pub record IsWritten (key : Bytes) (values : List DhtValue) (s s' : FileDht) : Type 0 where
  pub kept : Dict.IsDistinct s.files → Dict.IsDistinct s'.files
  pub in_cache : (j : Bytes) → cached s' j ≡ (if key == j then values else cached s j)
  pub in_files : (j : Bytes) → saved s'.files j ≡ (if key == j then values else saved s.files j)

pub save-IsWritten :
    (key : Bytes) (values : List DhtValue) (s : FileDht)
    → IsWritten key values s
        (save_to_disk carried_out key (record { values = values }) (set_values key values s)).1
unfolding save_to_disk
save-IsWritten key values s = record {
  kept = λ d. Dict.insert-IsDistinct s.files key _ d;
  in_cache = λ j. ground (arith, Dict.get-insert s.cache key j (record { values = values }));
  in_files =
      λ j. ground (arith, Dict.get-insert s.files key j (readable (record { values = values })));
}

delete-IsWritten :
    (key : Bytes) (s : FileDht)
    → IsWritten key [] s (delete_from_disk carried_out key (uncache key (set_values key [] s))).1
unfolding delete_from_disk remove_file
delete-IsWritten key s = record {
  kept = λ d. ground (arith, Dict.remove-IsDistinct s.files key d);
  in_cache = λ j. ground (
    arith,
    Dict.get-insert s.cache key j (record { values = [] }),
    Dict.get-remove (Dict.insert s.cache key (record { values = [] })) key j,
  );
  in_files = λ j. ground (arith, Dict.get-remove s.files key j, list_beq_iff key j);
}

pub sync-IsWritten :
    (key : Bytes) (values : List DhtValue) (s : FileDht)
    → IsWritten key values s (sync carried_out key values (set_values key values s)).1
unfolding sync
sync-IsWritten key [] s = delete-IsWritten key s
sync-IsWritten key (v ∷ vs) s = save-IsWritten key (v ∷ vs) s

sync_succeeds :
    (key : Bytes) (values : List DhtValue) (s : FileDht) → (sync carried_out key values s).0 ≡ ok tt
unfolding sync save_to_disk delete_from_disk remove_file
sync_succeeds key [] s = ground arith
sync_succeeds key (v ∷ vs) s = refl

-- Reading a key answers with the values that have not expired.
pub get_all_answer :
    (key : Bytes) (now : ℕ) (s : FileDht)
    → (get_all carried_out key now s).0
      ≡ ok (map (λ (v : DhtValue). v.value) (live now (cached s key)))
unfolding get_all live retain
get_all_answer key now s = elim (Option-cases (Dict.get s.cache key)) [
  | inl e ↦ rw (e, get_all, cached) refl
  | inr (r, e) ↦ elim (Bool-cases (length (live now r.values) == length r.values)) [
    | inl l ↦ rw (e, get_all, cached) (rw l refl)
    | inr l ↦
        rw (e, get_all, cached)
          (rw l (ap (λ x. x.0) (and_then_ok _ _ (sync_succeeds key (live now r.values) _))))
  ]
]

load_entry_agrees :
    (now : ℕ) (k : Bytes) (f : File) (files : Dict Bytes File) (cache : Dict Bytes DhtRecord)
    (key : Bytes)
    → ((j : Bytes) → values_of (Dict.get cache j) ≡ live now (saved files j))
    → Dict.get files k ≡ none
    → values_of (Dict.get (load_entry now k f cache) key) ≡ live now (saved ((k, f) ∷ files) key)
unfolding load_entry live Dict.get retain
load_entry_agrees now k unreadable files cache key h d = ground (arith, h key, list_beq_iff k key)
load_entry_agrees now k (readable r) files cache key h d = elim (List-cases (live now r.values)) [
  | inl e ↦ ground (arith, h key, list_beq_iff k key)
  | inr (v, vs, e) ↦ ground (arith, h key, Dict.get-insert cache k key (record { values = v ∷ vs }))
]

pub load_agrees :
    (now : ℕ) (files : Dict Bytes File) (key : Bytes)
    → Dict.IsDistinct files
    → cached (with_time now files) key ≡ live now (saved files key)
unfolding with_time load_from_disk_sync live Dict.get retain
load_agrees now [] key d = refl
load_agrees now ((k, f) ∷ files) key d =
    load_entry_agrees now k f files _ key (λ j. load_agrees now files j d.1) d.0

-- A table opened again on its files answers every key as before.
pub restart_answers :
    (now later : ℕ) (s : FileDht) (key : Bytes)
    → IsSaved now s
    → now ≤ later
    → (get_all carried_out key later (with_time later s.files)).0
      ≡ (get_all carried_out key later s).0
restart_answers now later s key i h =
    get_all_answer key later (with_time later s.files)
    ∙ ap (λ x. ok (map (λ (v : DhtValue). v.value) x))
        (ap (live later) (load_agrees later s.files key i.distinct)
          ∙ live_later later later (saved s.files key) (omega arith)
          ∙ sym ((IsSaved-later now later s h i).agree key))
    ∙ sym (get_all_answer key later s)
