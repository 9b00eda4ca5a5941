-- ===== src/Auth/Devices/Reload.antt =====
-- Who is authorized after loading, adding a device and reloading.
use bonded.Prelude.Map.{contains_key, contains_key-collect, lookup}
use bonded.Auth.Devices.{
  AuthorizedDevice, AuthorizedKeysStore, DevicesFile, missing, unparsed, devices, reload,
  is_authorized, new_device, add_device, authorize_device_key, unreadable, EventKind, Watcher,
  any_event, create_event, remove_event, other_event, modify_any, modify_data, modify_name,
  modify_metadata, modify_other, access_close_write, access_close_other, access_other,
  should_reload_for_event_kind, should_skip, on_event, debounce_ms,
}
use bonded.Prelude.{
  ℕ, ◌+◌, ◌-◌, ◌≤◌, ltb, Option, none, ◌<◌, ◌≡◌, ◌≢◌, refl, Bool, true, false, ◌||◌, some, List, [],
  ◌∷◌, ◌++◌, Text, text_eq, text_beq, text_beq_iff, any, arith, ok, err, Bool-cases, inl, inr, All,
  ◌⊎◌, if◌then◌else◌,
}

-- A device of the file has this key.
abbrev pub listed : Text → DevicesFile → Bool
listed k missing = false
listed k unparsed = false
listed k (devices ds) = any (λ d. text_beq d.public_key k) ds

-- A store that is reloaded from a readable file authorizes exactly the keys that the file lists;
-- if the file cannot be read, the store is left as it was and the reload fails.
pub reload-listed :
    (store : AuthorizedKeysStore) (file : DevicesFile) (k : Text)
    → ((file ≢ unparsed)
        × ((reload store file).0 ≡ ok tt)
        × (is_authorized (reload store file).1 k ≡ listed k file))
      ⊎ ((file ≡ unparsed) × (reload store file ≡ (err unreadable, store)))
unfolding reload is_authorized contains_key lookup
reload-listed store missing k = inl (
  ground arith,
  refl,
  ground (arith, contains_key-collect {V = AuthorizedDevice} (λ d. d.public_key) k [] []),
)
reload-listed store unparsed k = inr (refl, refl)
reload-listed store (devices ds) k =
    inl (ground arith, refl, ground (arith, contains_key-collect (λ d. d.public_key) k [] ds))

any-append :
    (p : AuthorizedDevice → Bool) (xs ys : List AuthorizedDevice)
    → any p (xs ++ ys) ≡ (any p xs || any p ys)
any-append p [] ys = refl
any-append p (x ∷ xs) ys = ground (arith, any-append p xs ys)

add_device-listed :
    (ds : List AuthorizedDevice) (key other : Text)
    → let r = add_device true (devices ds) ds key in
      (r.0 ≡ ok (if listed key (devices ds) then false else true))
      × (r.1 ≢ unparsed)
      × (listed other r.1 ≡ (text_beq key other || listed other (devices ds)))
      × ((listed key (devices ds) ≡ false) ⊎ (r.1 ≡ devices ds))
unfolding add_device
add_device-listed ds key other = elim (Bool-cases (listed key (devices ds))) [
  | inl old ↦ rw old (refl, ground arith, ground (arith, text_beq_iff key other), inr refl)
  | inr fresh ↦ rw fresh (
    refl,
    ground arith,
    ground (arith, any-append (λ d. text_beq d.public_key other) ds (new_device key ∷ [])),
    inl refl,
  )
]

-- Adding a key to a file that can be read and written lists it and leaves every other key as it was;
-- the answer says whether the key was new, and a file that lists the key already is not changed.
pub authorize_device_key-listed :
    (file : DevicesFile) (key other : Text)
    → file ≢ unparsed
    → let r = authorize_device_key true file key in
      (r.0 ≡ ok (if listed key file then false else true))
      × (r.1 ≢ unparsed)
      × (listed other r.1 ≡ (text_beq key other || listed other file))
      × ((listed key file ≡ false) ⊎ (r.1 ≡ file))
unfolding authorize_device_key
authorize_device_key-listed missing key other h = (
  ground (arith, text_beq_iff key key),
  ground arith,
  ground (arith, text_beq_iff key other),
  inl refl,
)
authorize_device_key-listed unparsed key other h = absurd (h refl)
authorize_device_key-listed (devices ds) key other h = add_device-listed ds key other

on_event_debounced :
    (w : Watcher) (kind : EventKind) (last now : ℕ) (file : DevicesFile)
    → w.last_reload_at ≡ some last
    → now < last + debounce_ms
    → on_event w kind now file ≡ w
unfolding on_event
on_event_debounced w kind last now file e h = ground arith

-- A burst of events, each with its time and the file as it is then.
unfoldable pub watch : Watcher → List (EventKind × ℕ × DevicesFile) → Watcher
unfolding on_event
watch w [] = w
watch w ((kind, now, file) ∷ events) = watch (on_event w kind now file) events

-- All events of a burst within 200 ms after a reload are dropped: the watcher keeps the old keys,
-- whatever the file says at the end of the burst.
pub watch_burst :
    (w : Watcher) (last : ℕ) (events : List (EventKind × ℕ × DevicesFile))
    → w.last_reload_at ≡ some last
    → All (λ e. e.1 < last + debounce_ms) events
    → watch w events ≡ w
unfolding watch
watch_burst w last [] e h = refl
watch_burst w last ((kind, now, file) ∷ events) e h =
    rw (on_event_debounced w kind last now file e h.0) (watch_burst w last events e h.1)

-- The kinds of event that may have changed what the file says, and those that have not.
pub data MayChange : EventKind → Type 0 where
  created : MayChange create_event
  removed : MayChange remove_event
  modified : MayChange modify_any
  rewritten : MayChange modify_data
  renamed : MayChange modify_name
  closed_after_write : MayChange access_close_write

pub data IsIrrelevant : EventKind → Type 0 where
  unknown : IsIrrelevant any_event
  unlisted : IsIrrelevant other_event
  metadata : IsIrrelevant modify_metadata
  modified_otherwise : IsIrrelevant modify_other
  closed_otherwise : IsIrrelevant access_close_other
  accessed : IsIrrelevant access_other

kind_cases :
    (kind : EventKind)
    → (MayChange kind × (should_reload_for_event_kind kind ≡ true))
      ⊎ (IsIrrelevant kind × (should_reload_for_event_kind kind ≡ false))
unfolding should_reload_for_event_kind
kind_cases any_event = inr (unknown, refl)
kind_cases create_event = inl (created, refl)
kind_cases remove_event = inl (removed, refl)
kind_cases other_event = inr (unlisted, refl)
kind_cases modify_any = inl (modified, refl)
kind_cases modify_data = inl (rewritten, refl)
kind_cases modify_name = inl (renamed, refl)
kind_cases modify_metadata = inr (metadata, refl)
kind_cases modify_other = inr (modified_otherwise, refl)
kind_cases access_close_write = inl (closed_after_write, refl)
kind_cases access_close_other = inr (closed_otherwise, refl)
kind_cases access_other = inr (accessed, refl)

-- There was no reload in the 200 ms before, or there was one.
abbrev pub IsDue : Option ℕ → ℕ → Type 0
IsDue none now = Unit {0}
IsDue (some last) now = last + 200 ≤ now

abbrev pub IsTooSoon : Option ℕ → ℕ → Type 0
IsTooSoon none now = ⊥
IsTooSoon (some last) now = now < last + 200

debounce_cases :
    (last : Option ℕ) (now : ℕ)
    → (IsDue last now × (should_skip last now ≡ false))
      ⊎ (IsTooSoon last now × (should_skip last now ≡ true))
unfolding should_skip
debounce_cases none now = inl (tt, refl)
debounce_cases (some last) now = elim (Bool-cases (ltb (now - last) debounce_ms)) [
  | inl soon ↦ inr (ground arith, soon)
  | inr due ↦ inl (ground arith, due)
]

-- What an event does to the watcher: the store is brought in step with the file and the time is noted,
-- or nothing changes.
abbrev pub Handled : Text → EventKind → ℕ → DevicesFile → Watcher → Watcher → Type 0
Handled k kind now file w w' =
    (MayChange kind
      × IsDue w.last_reload_at now
      × (is_authorized w'.store k ≡ listed k file)
      × (w'.last_reload_at ≡ some now))
    ⊎ ((IsIrrelevant kind ⊎ IsTooSoon w.last_reload_at now) × (w' ≡ w))

-- An event on a file that can be read: if its kind is one of the six that may have changed the file
-- and there was no reload in the last 200 ms, the store is in step with the file for every key and
-- the time of the event is noted as that of the last reload; if its kind is another, or a reload was
-- less than 200 ms ago, nothing changes.
pub on_event-listed :
    (w : Watcher) (kind : EventKind) (now : ℕ) (file : DevicesFile) (k : Text)
    → file ≢ unparsed
    → Handled k kind now file w (on_event w kind now file)
unfolding on_event
on_event-listed w kind now file k parsed = elim (kind_cases kind) [
  | inr (irrelevant, e) ↦ inr (inl irrelevant, rw (e, on_event) refl)
  | inl (relevant, e) ↦ elim (debounce_cases w.last_reload_at now) [
    | inr (soon, h) ↦ inr (inr soon, rw (e, h, on_event) refl)
    | inl (due, h) ↦ elim (reload-listed w.store file k) [
      | inl (_, _, same) ↦ inl (relevant, due, rw (e, h, on_event) same, rw (e, h, on_event) refl)
      | inr (bad, _) ↦ absurd (parsed bad)
    ]
  ]
]

added-listed :
    (writable b : Bool) (ds : List AuthorizedDevice) (file' : DevicesFile) (key : Text)
    → add_device writable (devices ds) ds key ≡ (ok b, file')
    → (listed key file' ≡ true) × (file' ≢ unparsed)
unfolding add_device
added-listed writable b ds file' key h = elim (Bool-cases (listed key (devices ds))) [
  | inl old ↦ (ground arith, ground arith)
  | inr fresh ↦ (
    ground (
      arith,
      any-append (λ d. text_beq d.public_key key) ds (new_device key ∷ []),
      text_beq_iff key key,
    ),
    ground arith,
  )
]

-- A key that was put on file is listed.
pub authorized-listed :
    (writable b : Bool) (file file' : DevicesFile) (key : Text)
    → authorize_device_key writable file key ≡ (ok b, file')
    → (listed key file' ≡ true) × (file' ≢ unparsed)
unfolding authorize_device_key
authorized-listed true b missing file' key h = (ground (arith, text_beq_iff key key), ground arith)
authorized-listed false b missing file' key h = absurd (ground arith)
authorized-listed writable b unparsed file' key h = absurd (ground arith)
authorized-listed writable b (devices ds) file' key h = added-listed writable b ds file' key h
