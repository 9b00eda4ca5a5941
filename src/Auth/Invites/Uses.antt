-- ===== src/Auth/Invites/Uses.antt =====
-- The uses of invite tokens.
use bonded.Prelude.Map.{
  lookup, insert, values, lookup-insert, lookup-collect-values, collect-IsKeyedBy, insert-IsKeyedBy,
  IsKeyedBy, lookup-IsKeyedBy,
}
use bonded.Auth.Invites.{
  InviteToken, InviteTokenManager, from_tokens, redeem, spend, saved, persist_manager,
  redeem_invite_token, TokensFile, missing, unparsed, tokens, FileError, InviteTokenError,
  not_found, exhausted,
}
use bonded.Prelude.{
  ℕ, zero, suc, ◌+◌, ◌-◌, ◌<◌, ◌≡◌, ◌≢◌, refl, Bool, true, false, Option, none, some, List, [],
  Text, text_eq, text_beq, text_beq_iff, ltb, min, arith, Outcome, ok, err, inl, inr, Option-cases,
  Bool-cases, if◌then◌else◌, ◌==◌,
}

abbrev left : Option InviteToken → ℕ
left none = 0
left (some t) = t.uses_remaining

-- The uses that a token has left, as the next load of the file sees it.
unfoldable pub uses : Text → TokensFile → ℕ
unfolding from_tokens
uses value missing = 0
uses value unparsed = 0
uses value (tokens ts) = left (lookup value (from_tokens ts))

from_tokens-IsKeyedBy : (ts : List InviteToken) → IsKeyedBy (λ t. t.token) (from_tokens ts)
unfolding from_tokens
from_tokens-IsKeyedBy ts = collect-IsKeyedBy (λ t. t.token) [] ts tt

persisted :
    (m : InviteTokenManager) (value : Text)
    → IsKeyedBy (λ t. t.token) m
    → lookup value (from_tokens (values m)) ≡ lookup value m
unfolding from_tokens lookup
persisted m value w = ground (arith, lookup-collect-values (λ t. t.token) value m [] w)

-- What an attempt to spend a use of `value` answers and leaves, for any token `other`.
abbrev pub Spends : TokensFile → Text → Text → Outcome FileError Bool × TokensFile → Type 0
Spends file value other r =
    (r.0 ≡ ok (ltb 0 (uses value file)))
    × (uses other r.1 ≡ (if text_beq value other then uses value file - 1 else uses other file))

spend_left :
    (m : InviteTokenManager) (file : TokensFile) (value other : Text) (t : InviteToken)
    → IsKeyedBy (λ t. t.token) m
    → uses value file ≡ t.uses_remaining
    → uses other file ≡ left (lookup other m)
    → lookup value m ≡ some t
    → (t.uses_remaining == 0) ≡ false
    → Spends file value other (spend true file (redeem m value))
unfolding spend redeem uses
spend_left m file value other t w u g held more =
    let t' : InviteToken = record t { uses_remaining = t.uses_remaining - 1 } in
    let m' = insert value t' m in
    let keyed =
      insert-IsKeyedBy (λ t. t.token) value t' m (lookup-IsKeyedBy (λ t. t.token) value m t w held)
        w in
    rw (held, redeem)
      (rw (more, redeem)
        (ground arith, ground (arith, persisted m' other keyed, lookup-insert value other t' m)))

spend-uses :
    (m : InviteTokenManager) (file : TokensFile) (value other : Text)
    → IsKeyedBy (λ t. t.token) m
    → uses value file ≡ left (lookup value m)
    → uses other file ≡ left (lookup other m)
    → Spends file value other (spend true file (redeem m value))
unfolding spend redeem
spend-uses m file value other w h g = elim (Option-cases (lookup value m)) [
  | inl free ↦ rw (free, redeem) (ground arith, ground (arith, text_beq_iff value other))
  | inr (t, held) ↦ elim (Bool-cases (t.uses_remaining == 0)) [
    | inl spent ↦
        rw (held, redeem)
          (rw (spent, redeem) (ground arith, ground (arith, text_beq_iff value other)))
    | inr left_over ↦ spend_left m file value other t w (ground arith) g held left_over
  ]
]

-- A redemption over a file that can be read and written succeeds exactly when the token has a use
-- left; it takes one use off that token in the file, and every other token keeps its uses.
pub redeem_invite_token-Spends :
    (file : TokensFile) (value other : Text)
    → file ≢ unparsed
    → Spends file value other (redeem_invite_token true file value)
unfolding redeem_invite_token uses lookup
redeem_invite_token-Spends missing value other h = spend-uses [] missing value other tt refl refl
redeem_invite_token-Spends unparsed value other h = absurd (h refl)
redeem_invite_token-Spends (tokens ts) value other h =
    spend-uses (from_tokens ts) (tokens ts) value other (from_tokens-IsKeyedBy ts) refl refl

-- How many of `n` redemptions, one after another, succeed.
unfoldable pub successes : ℕ → TokensFile → Text → ℕ
successes zero file value = 0
successes (suc n) file value =
    let r = redeem_invite_token true file value in
    let later = successes n r.1 value in
    elim r.0 [ ok done ↦ if done then later + 1 else later | err e ↦ later ]

spend_parsed :
    (file : TokensFile) (o : Outcome InviteTokenError (InviteToken × InviteTokenManager))
    → file ≢ unparsed
    → (spend true file o).1 ≢ unparsed
unfolding spend
spend_parsed file (ok r) h = ground arith
spend_parsed file (err e) h = h

redeem_invite_token-parsed :
    (file : TokensFile) (value : Text)
    → file ≢ unparsed
    → (redeem_invite_token true file value).1 ≢ unparsed
unfolding redeem_invite_token
redeem_invite_token-parsed missing value h = ground arith
redeem_invite_token-parsed unparsed value h = absurd (h refl)
redeem_invite_token-parsed (tokens ts) value h =
    spend_parsed (tokens ts) (redeem (from_tokens ts) value) h

-- Of any number of redemptions of a token, exactly as many succeed as it had uses, or all of them
-- if they are fewer: no token lets in more devices than it says.
pub successes-min :
    (n : ℕ) (file : TokensFile) (value : Text)
    → file ≢ unparsed
    → successes n file value ≡ min n (uses value file)
unfolding successes
successes-min zero file value h = omega arith
successes-min (suc n) file value h =
    let r = redeem_invite_token true file value in
    let now = redeem_invite_token-Spends file value value h in
    let later = successes-min n r.1 value (redeem_invite_token-parsed file value h) in
    rw (now.0, successes) (ground (arith, now.1, later, text_beq_iff value value))

-- Whatever the expiry of a token says, a use that is left is spent: redeeming does not read it.
pub redeem_expired :
    (m : InviteTokenManager) (value expires_at : Text) (t : InviteToken)
    → 0 < t.uses_remaining
    → (r : InviteToken × InviteTokenManager) × (redeem
          (insert value (record t { expires_at = expires_at }) m)
          value
        ≡ ok r)
      × (r.0 ≡ record t { expires_at = expires_at; uses_remaining = t.uses_remaining - 1 })
unfolding redeem
redeem_expired m value expires_at t h =
    let t' : InviteToken = record t { expires_at = expires_at } in
    let spent : InviteToken = record t' { uses_remaining = t.uses_remaining - 1 } in
    (
      (spent, insert value spent (insert value t' m)),
      ground (arith, lookup-insert value value t' m, text_beq_iff value value),
      refl,
    )

success-writable :
    (writable : Bool) (file file' : TokensFile) (value : Text)
    → redeem_invite_token writable file value ≡ (ok true, file')
    → (writable ≡ true) × (file ≢ unparsed)
unfolding redeem_invite_token persist_manager saved
success-writable true missing file' value h = (refl, ground arith)
success-writable true unparsed file' value h = absurd (ground arith)
success-writable true (tokens ts) file' value h = (refl, ground arith)
success-writable false file file' value h = absurd (ground arith)

-- A redemption that reports success had a use to spend, and spent it.
pub success-uses :
    (writable : Bool) (file file' : TokensFile) (value : Text)
    → redeem_invite_token writable file value ≡ (ok true, file')
    → uses value file ≡ uses value file' + 1
success-uses writable file file' value h =
    let (w, parsed) = success-writable writable file file' value h in
    let (r, u) = redeem_invite_token-Spends file value value parsed in
    ground (arith, text_beq_iff value value)

refused :
    (m : InviteTokenManager) (value : Text)
    → left (lookup value m) ≡ 0
    → (e : InviteTokenError) × (redeem m value ≡ err e)
unfolding redeem
refused m value h = elim (Option-cases (lookup value m)) [
  | inl free ↦ (not_found, rw (free, redeem))
  | inr (t, held) ↦ (exhausted, rw (held, redeem) (ground arith))
]

-- A redemption of a token with no use left reports so and leaves the file as it was.
pub refused_file :
    (file : TokensFile) (value : Text)
    → file ≢ unparsed
    → uses value file ≡ 0
    → redeem_invite_token true file value ≡ (ok false, file)
unfolding redeem_invite_token uses lookup
refused_file missing value parsed h = let (e, r) = refused [] value refl in rw r
refused_file unparsed value parsed h = absurd (parsed refl)
refused_file (tokens ts) value parsed h = let (e, r) = refused (from_tokens ts) value h in rw r
