-- ===== src/Auth/Invites.antt =====
-- Invite tokens: `InviteTokenManager` of crates/bonded-core/src/auth.rs, and the file that holds them,
-- crates/bonded-server/src/invite_tokens.rs. The file is read and written as TOML by third-party
-- code: it is missing, cannot be read or parsed, or holds a list of tokens.
pub mod Uses
use bonded.Prelude.Map.{Map, lookup, insert, values, collect}
use bonded.Prelude.{
  ℕ, ◌+◌, ◌-◌, ◌<◌, Bool, true, false, not, Option, none, some, List, [], ◌∷◌, map, Text, text_eq,
  ltb, ◌==◌, if◌then◌else◌, find, Outcome, ok, err, or_fail, ensure, ◌>>=◌, ◌>>◌,
}

pub record InviteToken : Type 0 where
  pub token : Text
  pub expires_at : Text
  pub uses_remaining : ℕ

pub data InviteTokenError : Type 0 where
  not_found exhausted : InviteTokenError

pub data FileError : Type 0 where
  unreadable unwritable no_clock : FileError

-- The manager is its map from token values to tokens.
abbrev pub InviteTokenManager : Type 0
InviteTokenManager = Map Text InviteToken

pub is_usable : InviteToken → Bool
is_usable t = ltb 0 t.uses_remaining

unfoldable pub from_tokens : List InviteToken → InviteTokenManager
from_tokens tokens = collect (λ t. t.token) [] tokens

-- The value of a new token is random and the caller's.
unfoldable pub issue_token : InviteTokenManager → Text → Text → ℕ → InviteToken × InviteTokenManager
issue_token m value expires_at uses_remaining =
    let t : InviteToken = record {
      token = value;
      expires_at = expires_at;
      uses_remaining = uses_remaining;
    } in
    (t, insert value t m)

unfoldable pub redeem :
    InviteTokenManager → Text → Outcome InviteTokenError (InviteToken × InviteTokenManager)
redeem m value = do
  t ← or_fail (lookup value m) not_found
  ensure (not (t.uses_remaining == 0)) exhausted
  let t' = record t { uses_remaining = t.uses_remaining - 1 }
  ok (t', insert value t' m)

pub data TokensFile : Type 0 where
  missing : TokensFile
  unparsed : TokensFile
  tokens : List InviteToken → TokensFile

load_manager : TokensFile → Outcome FileError InviteTokenManager
load_manager missing = ok []
load_manager unparsed = err unreadable
load_manager (tokens ts) = ok (from_tokens ts)

-- `persist_manager`; `writable` says whether the file system lets the file be written.
persist_manager : Bool → InviteTokenManager → Outcome FileError TokensFile
persist_manager true m = ok (tokens (values m))
persist_manager false m = err unwritable

-- The answer and the file after an attempt to persist; a failed write leaves the old file.
pub saved {ℓ} :
    {A : Type ℓ} → TokensFile → A → Outcome FileError TokensFile → Outcome FileError A × TokensFile
saved file a (ok file') = (ok a, file')
saved file a (err e) = (err e, file)

spend :
    Bool
    → TokensFile
    → Outcome InviteTokenError (InviteToken × InviteTokenManager)
    → Outcome FileError Bool × TokensFile
unfolding persist_manager saved
spend writable file (ok (t, m)) = saved file true (persist_manager writable m)
spend writable file (err e) = (ok false, file)

-- `redeem_invite_token`: whether a use was spent, and the file.
unfoldable pub redeem_invite_token : Bool → TokensFile → Text → Outcome FileError Bool × TokensFile
unfolding load_manager spend
redeem_invite_token writable file value = elim (load_manager file) [
  | err e ↦ (err e, file)
  | ok m ↦ spend writable file (redeem m value)
]

create_invite :
    Bool
    → TokensFile
    → Option Text
    → Text
    → InviteTokenManager
    → Outcome FileError InviteToken × TokensFile
unfolding persist_manager saved
create_invite writable file none value m = (err no_clock, file)
create_invite writable file (some expires_at) value m =
    let (created, m') = issue_token m value expires_at 1 in
    saved file created (persist_manager writable m')

-- `ensure_startup_invite`, given the expiry that the clock gives and the random value of a token.
unfoldable pub ensure_startup_invite :
    Bool → TokensFile → Option Text → Text → Outcome FileError InviteToken × TokensFile
unfolding load_manager create_invite is_usable
ensure_startup_invite writable file expires_at value = elim (load_manager file) [
  | err e ↦ (err e, file)
  | ok m ↦ elim (find is_usable (values m)) [
    | some existing ↦ (ok existing, file)
    | none ↦ create_invite writable file expires_at value m
  ]
]
