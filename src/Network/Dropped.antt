-- ===== src/Network/Dropped.antt =====
-- What is left of the firewall rules when the runtime is dropped.
use bonded.Network.Rules.{
  Rule, Os, NetworkRuntime, masquerade_rule, forward_out_rule, forward_in_rule, ensure_rule,
  remove_if, remove_rules, drop_runtime, ensure_forward_in, ensure_forward_out,
  ensure_iptables_rules,
}
use bonded.Prelude.{
  ◌≡◌, refl, ap, ◌∙◌, Bool, true, false, Option, some, List, [], ◌∷◌, ◌++◌, Text, ok, arith,
  Outcome-cases, Option-cases, inl, inr,
}
use bonded.Network.Restore.{IsOs, CanDelete, has_rule, ensure_rule-Ensured, undone}

-- The runtime as `setup` makes it before the rules, with these flags.
abbrev pub runtime : Text → Option Text → Text → Text → Bool → Bool → Bool → NetworkRuntime
runtime tun_name ip_forward subnet egress masquerade out into = record {
  tun_name = tun_name;
  original_ip_forward = ip_forward;
  masquerade_rule_installed = masquerade;
  forward_out_rule_installed = out;
  forward_in_rule_installed = into;
  forwarding_mode_tun = true;
  tun_subnet = some subnet;
  egress_interface = some egress;
}

-- From the rules `before` to the rules `after` by adding this rule, or none.
abbrev Added : Bool → Rule → List Rule → List Rule → Type 0
Added installed r before after =
    (installed ≡ true → (after ≡ before ++ r ∷ []) × (has_rule r before ≡ false))
    × (installed ≡ false → after ≡ before)

none-Added : (r : Rule) (rules after : List Rule) → after ≡ rules → Added false r rules after
none-Added r rules after e = (λ h. ground arith, λ h. e)

module _ {S : Type 0} (os : Os S) (w : IsOs os) (v : CanDelete os w) (tun_name : Text)
    (ip_forward : Option Text) (subnet egress : Text) where
  rules_removed :
      (m o i : Bool) (s : S) (first second third : List Rule)
      → Added m (masquerade_rule subnet egress) first second
      → Added o (forward_out_rule tun_name egress) second third
      → Added i (forward_in_rule tun_name egress) third (w.rules s)
      → w.rules (remove_rules os (runtime tun_name ip_forward subnet egress m o i) s) ≡ first
  unfolding remove_rules
  rules_removed m o i s first second third am ao ai =
      let closed_in = remove_if os i (forward_in_rule tun_name egress) s in
      let closed = remove_if os o (forward_out_rule tun_name egress) closed_in in
      let left : w.rules closed_in ≡ third =
        undone os w v i (forward_in_rule tun_name egress) s third ai.0 ai.1 in
      let left' : w.rules closed ≡ second =
        undone os w v o (forward_out_rule tun_name egress) closed_in second
          (λ h. (left ∙ (ao.0 h).0, (ao.0 h).1)) (λ h. left ∙ ao.1 h) in
      undone os w v m (masquerade_rule subnet egress) closed first
        (λ h. (left' ∙ (am.0 h).0, (am.0 h).1)) (λ h. left' ∙ am.1 h)

  dropped_as_removed :
      (rt : NetworkRuntime) (s : S)
      → rt.forwarding_mode_tun ≡ true
      → w.rules (drop_runtime os rt s) ≡ w.rules (remove_rules os rt s)
  unfolding drop_runtime
  dropped_as_removed rt s tun = elim (Option-cases rt.original_ip_forward) [
    | inl unknown ↦ ground (arith, w.down_keeps rt.tun_name (remove_rules os rt s))
    | inr (value, known) ↦
        let cleared = remove_rules os rt s in
        let kept = w.forward_keeps (value ++ 10 ∷ []) cleared in
        let down = w.down_keeps rt.tun_name (os.write_ip_forward (value ++ 10 ∷ []) cleared) in
        ground arith
  ]

  -- Which rules a runtime has added to those before.
  record Installed (before : List Rule) (rt : NetworkRuntime) (s : S) : Type 0 where
    m : Bool
    o : Bool
    i : Bool
    second : List Rule
    third : List Rule
    is_runtime : rt ≡ runtime tun_name ip_forward subnet egress m o i
    masquerades : Added m (masquerade_rule subnet egress) before second
    goes_out : Added o (forward_out_rule tun_name egress) second third
    comes_in : Added i (forward_in_rule tun_name egress) third (w.rules s)

  ensured-Added :
      (installed : Bool) (r : Rule) (s : S)
      → (ensure_rule os r s).0 ≡ ok installed
      → Added installed r (w.rules s) (w.rules (ensure_rule os r s).1)
  ensured-Added installed r s h =
      let e = ensure_rule-Ensured os w v r s in
      (λ yes_added. e.added (h ∙ ap ok yes_added), λ no_added. e.kept (h ∙ ap ok no_added))

  forward_in-Installed :
      (m o : Bool) (s : S) (before second : List Rule)
      → Added m (masquerade_rule subnet egress) before second
      → Added o (forward_out_rule tun_name egress) second (w.rules s)
      → let r =
          ensure_forward_in os egress (runtime tun_name ip_forward subnet egress m o false) s in
        Installed before r.1 r.2
  unfolding ensure_forward_in
  forward_in-Installed m o s before second am ao =
      let rule = forward_in_rule tun_name egress in
      elim (Outcome-cases (ensure_rule os rule s).0) [
        | inl (installed, done) ↦
            rw (done, ensure_forward_in)
              (record {
                m = m;
                o = o;
                i = installed;
                second = second;
                third = w.rules s;
                is_runtime = refl;
                masquerades = am;
                goes_out = ao;
                comes_in = ensured-Added installed rule s done;
              })
        | inr (e, bad) ↦
            rw (bad, ensure_forward_in)
              (record {
                m = m;
                o = o;
                i = false;
                second = second;
                third = w.rules s;
                is_runtime = refl;
                masquerades = am;
                goes_out = ao;
                comes_in =
                    none-Added rule (w.rules s) _
                      ((ensure_rule-Ensured os w v rule s).failed e bad);
              })
      ]

  forward_out-Installed :
      (m : Bool) (s : S) (before : List Rule)
      → Added m (masquerade_rule subnet egress) before (w.rules s)
      → let r =
          ensure_forward_out os egress
            (runtime tun_name ip_forward subnet egress m false false)
            s in
        Installed before r.1 r.2
  unfolding ensure_forward_out
  forward_out-Installed m s before am =
      let rule = forward_out_rule tun_name egress in
      elim (Outcome-cases (ensure_rule os rule s).0) [
        | inl (installed, done) ↦
            rw (done, ensure_forward_out)
              (forward_in-Installed m installed (ensure_rule os rule s).1 before (w.rules s) am
                (ensured-Added installed rule s done))
        | inr (e, bad) ↦
            let same = (ensure_rule-Ensured os w v rule s).failed e bad in
            rw (bad, ensure_forward_out)
              (record {
                m = m;
                o = false;
                i = false;
                second = w.rules s;
                third = w.rules s;
                is_runtime = refl;
                masquerades = am;
                goes_out = none-Added rule (w.rules s) (w.rules s) refl;
                comes_in = none-Added (forward_in_rule tun_name egress) (w.rules s) _ same;
              })
      ]

  rules-Installed :
      (s : S)
      → let r =
          ensure_iptables_rules os subnet egress
            (runtime tun_name ip_forward subnet egress false false false)
            s in
        Installed (w.rules s) r.1 r.2
  unfolding ensure_iptables_rules
  rules-Installed s =
      let rule = masquerade_rule subnet egress in
      elim (Outcome-cases (ensure_rule os rule s).0) [
        | inl (installed, done) ↦
            rw (done, ensure_iptables_rules)
              (forward_out-Installed installed (ensure_rule os rule s).1 (w.rules s)
                (ensured-Added installed rule s done))
        | inr (e, bad) ↦
            let same = (ensure_rule-Ensured os w v rule s).failed e bad in
            let nothing =
              none-Added (forward_out_rule tun_name egress) (w.rules s) (w.rules s) refl in
            rw (bad, ensure_iptables_rules)
              (record {
                m = false;
                o = false;
                i = false;
                second = w.rules s;
                third = w.rules s;
                is_runtime = refl;
                masquerades = none-Added rule (w.rules s) (w.rules s) refl;
                goes_out = nothing;
                comes_in = none-Added (forward_in_rule tun_name egress) (w.rules s) _ same;
              })
      ]

  -- Dropping the runtime gives the firewall the rules it had before the runtime ensured its own, whether
  -- all of these could be ensured or one of them failed: what was added is removed, and a rule that was
  -- there already stays. (iptables behaves as
  -- documented, its checks can be launched, and deleting a listed rule succeeds.)
  pub ensure_iptables_rules-drop_runtime :
      (s : S)
      → let (result, rt, s') =
          ensure_iptables_rules os subnet egress
            (runtime tun_name ip_forward subnet egress false false false)
            s in
        w.rules (drop_runtime os rt s') ≡ w.rules s
  ensure_iptables_rules-drop_runtime s =
      let r =
        ensure_iptables_rules os subnet egress
          (runtime tun_name ip_forward subnet egress false false false) s in
      let there = rules-Installed s in
      ap (λ rt. w.rules (drop_runtime os rt r.2)) there.is_runtime
      ∙ dropped_as_removed (runtime tun_name ip_forward subnet egress there.m there.o there.i) r.2
          refl
      ∙ rules_removed there.m there.o there.i r.2 (w.rules s) there.second there.third
          there.masquerades there.goes_out there.comes_in
