-- ===== src/Auth/Devices.antt =====
-- crates/bonded-server/src/authorized_keys.rs: the file of authorized devices, the store that is
-- loaded from it, and the watcher that reloads the store. Reading and writing TOML is third-party
-- code: the file is missing, cannot be read or parsed, or holds a list of devices.
pub mod Reload
use bonded.Prelude.Map.{Map, collect, contains_key}
use bonded.Prelude.{
  ℕ, zero, suc, ◌/◌, ◌-◌, ◌==◌, Bool, true, false, Option, none, some, List, [], ◌∷◌, ◌++◌, Text,
  text_eq, text_beq, any, ltb, if◌then◌else◌, Outcome, ok, err, ascii,
}

pub record AuthorizedDevice : Type 0 where
  pub device_id : Text
  pub public_key : Text
  pub added_at : Option Text

pub data DevicesFile : Type 0 where
  missing : DevicesFile
  unparsed : DevicesFile
  devices : List AuthorizedDevice → DevicesFile

pub data DevicesError : Type 0 where
  unreadable unwritable : DevicesError

-- The devices of the store, by public key. (Its path is the file given to `reload`.)
abbrev pub AuthorizedKeysStore : Type 0
AuthorizedKeysStore = Map Text AuthorizedDevice

unfoldable pub load_devices_file : DevicesFile → Outcome DevicesError (List AuthorizedDevice)
load_devices_file missing = ok []
load_devices_file unparsed = err unreadable
load_devices_file (devices ds) = ok ds

-- `load_devices_map`, which is also `AuthorizedKeysStore::load`.
unfoldable pub load_devices_map : DevicesFile → Outcome DevicesError AuthorizedKeysStore
unfolding load_devices_file
load_devices_map file = elim (load_devices_file file) [
  | ok ds ↦ ok (collect (λ d. d.public_key) [] ds)
  | err e ↦ err e
]

-- A failed load leaves the store as it was.
unfoldable pub reload :
    AuthorizedKeysStore → DevicesFile → Outcome DevicesError (Unit {0}) × AuthorizedKeysStore
unfolding load_devices_map
reload store file = elim (load_devices_map file) [
  | ok new_devices ↦ (ok tt, new_devices)
  | err e ↦ (err e, store)
]

unfoldable pub is_authorized : AuthorizedKeysStore → Text → Bool
is_authorized store public_key = contains_key public_key store

-- A byte that goes on with a character of UTF-8.
is_continuation : ℕ → Bool
is_continuation b = b / 64 == 2

-- `chars().take(n)`.
take_chars : ℕ → Text → Text
unfolding is_continuation
take_chars n [] = []
take_chars zero (b ∷ bs) = if is_continuation b then b ∷ take_chars zero bs else []
take_chars (suc n) (b ∷ bs) = b ∷ take_chars (if is_continuation b then suc n else n) bs

unfoldable pub new_device : Text → AuthorizedDevice
unfolding take_chars
new_device public_key = record {
  device_id = ascii "device-" ++ take_chars 8 public_key;
  public_key = public_key;
  added_at = none;
}

add_device :
    Bool → DevicesFile → List AuthorizedDevice → Text → Outcome DevicesError Bool × DevicesFile
unfolding new_device
add_device writable file ds public_key =
    if any (λ d. text_beq d.public_key public_key) ds
    then (ok false, file)
    else if writable
    then (ok true, devices (ds ++ new_device public_key ∷ []))
    else (err unwritable, file)

-- `authorize_device_key`: whether the key was added, and the file.
unfoldable pub authorize_device_key :
    Bool → DevicesFile → Text → Outcome DevicesError Bool × DevicesFile
unfolding load_devices_file add_device
authorize_device_key writable file public_key = elim (load_devices_file file) [
  | err e ↦ (err e, file)
  | ok ds ↦ add_device writable file ds public_key
]

-- The kinds of file events of the `notify` crate, as far as the watcher tells them apart.
pub data EventKind : Type 0 where
  any_event create_event remove_event other_event : EventKind
  modify_any modify_data modify_name modify_metadata modify_other : EventKind
  access_close_write access_close_other access_other : EventKind

unfoldable pub should_reload_for_event_kind : EventKind → Bool
should_reload_for_event_kind create_event = true
should_reload_for_event_kind remove_event = true
should_reload_for_event_kind modify_any = true
should_reload_for_event_kind modify_data = true
should_reload_for_event_kind modify_name = true
should_reload_for_event_kind access_close_write = true
should_reload_for_event_kind _ = false

pub record Watcher : Type 0 where
  pub store : AuthorizedKeysStore
  pub last_reload_at : Option ℕ

abbrev pub debounce_ms : ℕ
debounce_ms = 200

-- The debounce: whether to skip, given the milliseconds of a monotonic clock.
unfoldable pub should_skip : Option ℕ → ℕ → Bool
should_skip none now = false
should_skip (some last) now = ltb (now - last) debounce_ms

-- The watcher's callback on an event, when the file is as given. (An event that is an error is only
-- logged; a poisoned lock is a panic of another thread and not modelled.)
unfoldable pub on_event : Watcher → EventKind → ℕ → DevicesFile → Watcher
unfolding should_reload_for_event_kind should_skip reload
on_event w kind now file =
    if should_reload_for_event_kind kind
    then if should_skip w.last_reload_at now
      then w
      else (record { store = (reload w.store file).1; last_reload_at = some now })
    else w
