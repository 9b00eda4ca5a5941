-- ===== src/Network/Rules.antt =====
-- `ensure_iptables_rules`, `ensure_rule`, `remove_rule` and the runtime's `drop`. The state of the
-- operating system is a parameter, and so are the commands on it.
use bonded.Prelude.{
  Bool, true, false, Option, none, some, List, [], ◌∷◌, ◌++◌, Text, ascii, Outcome, ok, err,
  if◌then◌else◌,
}

-- A rule's table and its specification.
abbrev pub Rule : Type 0
Rule = Text × List Text

-- `iptables -t table action spec`: whether it succeeds, unless it cannot be launched; the write of the
-- forwarding switch; and `ifconfig tun down`.
pub record Os (S : Type 0) : Type 0 where
  pub iptables : Text → Rule → S → Option Bool × S
  pub write_ip_forward : Text → S → S
  pub ifconfig_down : Text → S → S

pub record NetworkRuntime : Type 0 where
  pub tun_name : Text
  pub original_ip_forward : Option Text
  pub masquerade_rule_installed : Bool
  pub forward_out_rule_installed : Bool
  pub forward_in_rule_installed : Bool
  pub forwarding_mode_tun : Bool
  pub tun_subnet : Option Text
  pub egress_interface : Option Text

abbrev pub masquerade_rule : Text → Text → Rule
masquerade_rule subnet egress = (
  ascii "nat",
  ascii "POSTROUTING"
      ∷ ascii "-s"
      ∷ subnet
      ∷ ascii "-o"
      ∷ egress
      ∷ ascii "-j"
      ∷ ascii "MASQUERADE"
      ∷ [],
)

abbrev pub forward_out_rule : Text → Text → Rule
forward_out_rule tun_name egress = (
  ascii "filter",
  ascii "FORWARD" ∷ ascii "-i" ∷ tun_name ∷ ascii "-o" ∷ egress ∷ ascii "-j" ∷ ascii "ACCEPT" ∷ [],
)

abbrev pub forward_in_rule : Text → Text → Rule
forward_in_rule tun_name egress = (
  ascii "filter",
  ascii "FORWARD"
      ∷ ascii "-i"
      ∷ egress
      ∷ ascii "-o"
      ∷ tun_name
      ∷ ascii "-m"
      ∷ ascii "state"
      ∷ ascii "--state"
      ∷ ascii "RELATED,ESTABLISHED"
      ∷ ascii "-j"
      ∷ ascii "ACCEPT"
      ∷ [],
)

pub data RuleError : Type 0 where
  not_executed command_failed : RuleError

module _ {S : Type 0} (os : Os S) where
  -- `iptables`, as an error or not.
  unfoldable pub run_iptables : Text → Rule → S → Outcome RuleError (Unit {0}) × S
  run_iptables action rule s =
      let ran = os.iptables action rule s in
      elim ran.0 [
        | none ↦ (err not_executed, ran.1)
        | some done ↦ ((if done then ok tt else err command_failed), ran.1)
      ]

  unfoldable pub add_rule : Rule → S → Outcome RuleError Bool × S
  unfolding run_iptables
  add_rule rule s =
      let ran = run_iptables (ascii "-A") rule s in
      elim ran.0 [ ok _ ↦ (ok true, ran.1) | err e ↦ (err e, ran.1) ]

  -- Whether the rule was added.
  unfoldable pub ensure_rule : Rule → S → Outcome RuleError Bool × S
  unfolding add_rule
  ensure_rule rule s =
      let checked = os.iptables (ascii "-C") rule s in
      elim checked.0 [
        | none ↦ (err not_executed, checked.1)
        | some there ↦ if there then (ok false, checked.1) else add_rule rule checked.1
      ]

  -- The result is not used.
  unfoldable pub remove_rule : Rule → S → S
  unfolding run_iptables
  remove_rule rule s =
      let checked = os.iptables (ascii "-C") rule s in
      elim checked.0 [
        | none ↦ checked.1
        | some there ↦ if there then (run_iptables (ascii "-D") rule checked.1).1 else checked.1
      ]

  unfoldable pub ensure_forward_in :
      Text → NetworkRuntime → S → Outcome RuleError (Unit {0}) × NetworkRuntime × S
  unfolding ensure_rule
  ensure_forward_in egress rt s =
      let added = ensure_rule (forward_in_rule rt.tun_name egress) s in
      elim added.0 [
        | err e ↦ (err e, rt, added.1)
        | ok installed ↦ (ok tt, record rt { forward_in_rule_installed = installed }, added.1)
      ]

  unfoldable pub ensure_forward_out :
      Text → NetworkRuntime → S → Outcome RuleError (Unit {0}) × NetworkRuntime × S
  unfolding ensure_rule ensure_forward_in
  ensure_forward_out egress rt s =
      let added = ensure_rule (forward_out_rule rt.tun_name egress) s in
      elim added.0 [
        | err e ↦ (err e, rt, added.1)
        | ok installed ↦
            ensure_forward_in egress (record rt { forward_out_rule_installed = installed }) added.1
      ]

  -- The first rule that cannot be ensured ends it; the flags tell which rules were added.
  unfoldable pub ensure_iptables_rules :
      Text → Text → NetworkRuntime → S → Outcome RuleError (Unit {0}) × NetworkRuntime × S
  unfolding ensure_rule ensure_forward_out
  ensure_iptables_rules tun_subnet egress rt s =
      let added = ensure_rule (masquerade_rule tun_subnet egress) s in
      elim added.0 [
        | err e ↦ (err e, rt, added.1)
        | ok installed ↦
            ensure_forward_out egress (record rt { masquerade_rule_installed = installed }) added.1
      ]

  unfoldable pub remove_if : Bool → Rule → S → S
  unfolding remove_rule
  remove_if installed rule s = if installed then remove_rule rule s else s

  unfoldable pub remove_rules : NetworkRuntime → S → S
  unfolding remove_if
  remove_rules rt s = elim rt.egress_interface [
    | none ↦ s
    | some egress ↦
        let closed_in =
          remove_if rt.forward_in_rule_installed (forward_in_rule rt.tun_name egress) s in
        let closed =
          remove_if rt.forward_out_rule_installed (forward_out_rule rt.tun_name egress) closed_in in
        elim rt.tun_subnet [
          | none ↦ closed
          | some subnet ↦
              remove_if rt.masquerade_rule_installed (masquerade_rule subnet egress) closed
        ]
  ]

  -- `drop`.
  unfoldable pub drop_runtime : NetworkRuntime → S → S
  unfolding remove_rules
  drop_runtime rt s =
      let cleared = remove_rules rt s in
      let forwarded : S = elim rt.original_ip_forward [
        | none ↦ cleared
        | some value ↦ os.write_ip_forward (value ++ 10 ∷ []) cleared
      ] in
      if rt.forwarding_mode_tun then os.ifconfig_down rt.tun_name forwarded else s
