-- ===== src/Network/Restore.antt =====
-- Adding a firewall rule and removing it.
use bonded.Network.Rules.{
  Rule, Os, RuleError, run_iptables, add_rule, ensure_rule, remove_rule, remove_if,
}
use bonded.Prelude.{
  ◌≡◌, refl, ap, ◌∙◌, Bool, true, false, ◌&&◌, none, some, List, [], ◌∷◌, ◌++◌, Text, text_beq,
  text_beq_iff, ascii, Outcome, ok, err, if◌then◌else◌, arith, Bool-cases, Option-cases, inl, inr,
}

unfoldable pub same_spec : List Text → List Text → Bool
unfolding text_beq
same_spec [] [] = true
same_spec [] (y ∷ ys) = false
same_spec (x ∷ xs) [] = false
same_spec (x ∷ xs) (y ∷ ys) = text_beq x y && same_spec xs ys

unfoldable pub has_rule : Rule → List Rule → Bool
unfolding same_spec text_beq
has_rule r [] = false
has_rule r (q ∷ rules) = if text_beq r.0 q.0 && same_spec r.1 q.1 then true else has_rule r rules

unfoldable pub remove_first : Rule → List Rule → List Rule
unfolding same_spec text_beq
remove_first r [] = []
remove_first r (q ∷ rules) =
    if text_beq r.0 q.0 && same_spec r.1 q.1 then rules else q ∷ remove_first r rules

-- What iptables documents: `-C`, where it can be launched, tells whether the rule is listed, `-A` puts it
-- at the end if it succeeds, and `-D` takes the first such rule away if it succeeds. The other commands
-- leave the rules alone.
pub record IsOs {S : Type 0} (os : Os S) : Type 0 where
  pub rules : S → List Rule
  pub checks :
      (r : Rule) (s : S) (b : Bool)
      → (os.iptables (ascii "-C") r s).0 ≡ some b
      → b ≡ has_rule r (rules s)
  pub check_keeps : (r : Rule) (s : S) → rules (os.iptables (ascii "-C") r s).1 ≡ rules s
  pub adds :
      (r : Rule) (s : S)
      → (os.iptables (ascii "-A") r s).0 ≡ some true
      → rules (os.iptables (ascii "-A") r s).1 ≡ rules s ++ r ∷ []
  pub add_fails :
      (r : Rule) (s : S)
      → (os.iptables (ascii "-A") r s).0 ≡ some false
      → rules (os.iptables (ascii "-A") r s).1 ≡ rules s
  pub add_missing :
      (r : Rule) (s : S)
      → (os.iptables (ascii "-A") r s).0 ≡ none
      → rules (os.iptables (ascii "-A") r s).1 ≡ rules s
  pub deletes :
      (r : Rule) (s : S)
      → (os.iptables (ascii "-D") r s).0 ≡ some true
      → rules (os.iptables (ascii "-D") r s).1 ≡ remove_first r (rules s)
  pub forward_keeps : (value : Text) (s : S) → rules (os.write_ip_forward value s) ≡ rules s
  pub down_keeps : (tun_name : Text) (s : S) → rules (os.ifconfig_down tun_name s) ≡ rules s

-- On this system every check can be launched, and a rule that is listed can be deleted.
pub record CanDelete {S : Type 0} (os : Os S) (w : IsOs os) : Type 0 where
  pub launches : (r : Rule) (s : S) → (b : Bool) × ((os.iptables (ascii "-C") r s).0 ≡ some b)
  pub succeeds :
      (r : Rule) (s : S)
      → has_rule r (w.rules s) ≡ true
      → (os.iptables (ascii "-D") r s).0 ≡ some true

same_spec_refl : (xs : List Text) → same_spec xs xs ≡ true
unfolding same_spec
same_spec_refl [] = refl
same_spec_refl (x ∷ xs) = ground (arith, text_beq_iff x x, same_spec_refl xs)

has-append : (r : Rule) (rules : List Rule) → has_rule r (rules ++ r ∷ []) ≡ true
unfolding has_rule
has-append r [] = ground (arith, text_beq_iff r.0 r.0, same_spec_refl r.1)
has-append r (q ∷ rules) = ground (arith, has-append r rules)

remove-append :
    (r : Rule) (rules : List Rule)
    → has_rule r rules ≡ false
    → remove_first r (rules ++ r ∷ []) ≡ rules
unfolding has_rule remove_first
remove-append r [] h = ground (arith, text_beq_iff r.0 r.0, same_spec_refl r.1)
remove-append r (q ∷ rules) h = ground (arith, remove-append r rules)

module _ {S : Type 0} (os : Os S) (w : IsOs os) (v : CanDelete os w) where
  checked : (r : Rule) (s : S) → (os.iptables (ascii "-C") r s).0 ≡ some (has_rule r (w.rules s))
  checked r s = let (b, ran) = v.launches r s in ran ∙ ap some (w.checks r s b ran)

  -- A rule that was added is not among those before it.
  pub record Ensured (r : Rule) (s : S) (o : Outcome RuleError Bool × S) : Type 0 where
    pub added :
        o.0 ≡ ok true → (w.rules o.1 ≡ w.rules s ++ r ∷ []) × (has_rule r (w.rules s) ≡ false)
    pub kept : o.0 ≡ ok false → w.rules o.1 ≡ w.rules s
    pub failed : (e : RuleError) → o.0 ≡ err e → w.rules o.1 ≡ w.rules s

  add_rule-Ensured :
      (r : Rule) (s s₁ : S)
      → w.rules s₁ ≡ w.rules s
      → has_rule r (w.rules s) ≡ false
      → Ensured r s (add_rule os r s₁)
  unfolding add_rule run_iptables
  add_rule-Ensured r s s₁ same fresh = elim (Option-cases (os.iptables (ascii "-A") r s₁).0) [
    | inl missing ↦
        let left = w.add_missing r s₁ missing ∙ same in
        record { added = λ h. ground arith; kept = λ h. ground arith; failed = λ e h. ground arith }
    | inr (true, done) ↦
        let there = w.adds r s₁ done ∙ ap (λ rules. rules ++ r ∷ []) same in
        record {
          added = λ h. (ground arith, fresh);
          kept = λ h. ground arith;
          failed = λ e h. ground arith;
        }
    | inr (false, refused) ↦
        let left = w.add_fails r s₁ refused ∙ same in
        record { added = λ h. ground arith; kept = λ h. ground arith; failed = λ e h. ground arith }
  ]

  pub ensure_rule-Ensured : (r : Rule) (s : S) → Ensured r s (ensure_rule os r s)
  unfolding ensure_rule add_rule run_iptables
  ensure_rule-Ensured r s =
      let keeps = w.check_keeps r s in
      elim (Bool-cases (has_rule r (w.rules s))) [
        | inl there ↦
            let seen = checked r s ∙ ap some there in
            record {
              added = λ h. ground arith;
              kept = λ h. rw (seen, ensure_rule) keeps;
              failed = λ e h. ground arith;
            }
        | inr fresh ↦
            let seen = checked r s ∙ ap some fresh in
            rw (seen, ensure_rule)
              (add_rule-Ensured r s (os.iptables (ascii "-C") r s).1 keeps fresh)
      ]

  -- Whether the removal is reported as done does not matter.
  dropped :
      (r : Rule) (s : S) (before : List Rule)
      → w.rules (os.iptables (ascii "-D") r s).1 ≡ before
      → w.rules (run_iptables os (ascii "-D") r s).1 ≡ before
  unfolding run_iptables
  dropped r s before h = elim (Option-cases (os.iptables (ascii "-D") r s).0) [
    | inl missing ↦ rw (missing, run_iptables) h
    | inr (done, ran) ↦ rw (ran, run_iptables) h
  ]

  pub undone :
      (installed : Bool) (r : Rule) (s : S) (before : List Rule)
      → (installed ≡ true → (w.rules s ≡ before ++ r ∷ []) × (has_rule r before ≡ false))
      → (installed ≡ false → w.rules s ≡ before)
      → w.rules (remove_if os installed r s) ≡ before
  unfolding remove_if remove_rule run_iptables
  undone false r s before added kept = kept refl
  undone true r s before added kept =
      let (here, fresh) = added refl in
      let keeps = w.check_keeps r s ∙ here in
      let seen =
        checked r s ∙ ap (λ rules. some (has_rule r rules)) here ∙ ap some (has-append r before) in
      let listed = ap (has_rule r) keeps ∙ has-append r before in
      let removed =
        w.deletes r (os.iptables (ascii "-C") r s).1
          (v.succeeds r (os.iptables (ascii "-C") r s).1 listed)
        ∙ ap (remove_first r) keeps
        ∙ remove-append r before fresh in
      rw (seen, remove_rule) (dropped r (os.iptables (ascii "-C") r s).1 before removed)
