-- ===== src/Bootstrap/Provisioning.antt =====
-- What requests do to the WireGuard peers, and which transports are offered.
use bonded.Peers.{WireGuardPeerRegistry, RegisteredWireGuardPeer, PeersError, register_peer_lease}
use bonded.Peers.Leases.{IsLeased, register_peer_lease-IsLeased}
use bonded.Bootstrap.Routes.{
  AdvertisedBootstrapEndpoints, BootstrapContext, wireguard_enabled, error_message,
}
use bonded.Bootstrap.{not_implemented}
use bonded.PeerShare.Introduce.{is_empty}
use bonded.Prelude.Texts.{trim}
use bonded.Bootstrap.Handlers.{
  Environment, Handled, Requests, leased, provision, wireguard_peer_response,
  route_bootstrap_request, capabilities_of, wireguard_capability, path_no_query, post,
  wireguard_peer_path,
}
use bonded.Prelude.{
  ℕ, ◌≡◌, refl, sym, subst, Bool, true, false, ◌&&◌, ◌||◌, Option, none, some, Text, text_beq,
  ascii, Outcome, ok, err, Bool-cases, Option-cases, inl, inr, any, arith,
}

-- The peers of the registry, where there is one, have addresses of their own.
abbrev pub AreLeased : Option WireGuardPeerRegistry → Type 0
AreLeased none = Unit
AreLeased (some r) = IsLeased r.peers

by_answer :
    (h h' : Handled) → h ≡ h' → AreLeased h'.1.wireguard_peers → AreLeased h.1.wireguard_peers
by_answer h h' e w = subst (λ (x : Handled). AreLeased x.1.wireguard_peers) (sym e) w

leased-AreLeased :
    (key : Text) (ctx : BootstrapContext)
    (r : Outcome PeersError RegisteredWireGuardPeer × WireGuardPeerRegistry)
    → IsLeased r.1.peers
    → AreLeased (leased key ctx r).1.wireguard_peers
unfolding leased
leased-AreLeased key ctx (ok peer, peers) w = w
leased-AreLeased key ctx (err e, peers) w = w

provision-AreLeased :
    (writable : Bool) (now : ℕ) (key : Text) (peers : WireGuardPeerRegistry)
    (ctx : BootstrapContext) (keys : Option (Text × Text))
    → AreLeased ctx.wireguard_peers
    → IsLeased peers.peers
    → AreLeased (provision writable now key peers ctx keys).1.wireguard_peers
unfolding provision
provision-AreLeased writable now key peers ctx none v w = v
provision-AreLeased writable now key peers ctx (some (device_pk, wg_pk)) v w =
    elim (Bool-cases (is_empty device_pk || is_empty wg_pk)) [
      | inl lacks ↦ rw (lacks, provision) v
      | inr full ↦
          rw (full, provision)
            (leased-AreLeased key ctx (register_peer_lease writable now device_pk wg_pk peers)
              (register_peer_lease-IsLeased writable now device_pk wg_pk peers w))
    ]

response-AreLeased :
    (requests : Requests) (writable : Bool) (now : ℕ) (ctx : BootstrapContext) (body : Text)
    → AreLeased ctx.wireguard_peers
    → AreLeased (wireguard_peer_response requests writable now ctx body).1.wireguard_peers
unfolding wireguard_peer_response
response-AreLeased requests writable now ctx body w =
    let h = wireguard_peer_response requests writable now ctx body in
    let off : Handled = (
      ok (not_implemented, error_message (ascii "WireGuard is not enabled on this server")),
      ctx,
    ) in
    elim (Option-cases ctx.wireguard_public_key) [
      | inl keyless ↦ by_answer h off (ground arith) w
      | inr (key, keyed) ↦ elim (Option-cases ctx.wireguard_peers) [
        | inl peerless ↦ by_answer h off (ground arith) w
        | inr (peers, there) ↦
            by_answer h
              (provision writable now key peers ctx (requests.read_provisioning (trim body)))
              (ground arith)
              (provision-AreLeased writable now key peers ctx
                (requests.read_provisioning (trim body)) w (subst AreLeased there w))
      ]
    ]

-- Only a POST to the WireGuard peers' path changes anything: every other request leaves the context as
-- it was.
pub route_bootstrap_request_reads :
    (env : Environment) (method path body : Text) (ctx : BootstrapContext)
    (endpoints : Option AdvertisedBootstrapEndpoints)
    → (text_beq method post && text_beq (path_no_query path) wireguard_peer_path) ≡ false
    → (route_bootstrap_request env method path body ctx endpoints).1 ≡ ctx
unfolding route_bootstrap_request
route_bootstrap_request_reads env method path body ctx endpoints h = ground arith

-- No request takes an address from one peer for another: if the registered peers have addresses of their
-- own, they do after any request, whatever its answer.
pub route_bootstrap_request-AreLeased :
    (env : Environment) (method path body : Text) (ctx : BootstrapContext)
    (endpoints : Option AdvertisedBootstrapEndpoints)
    → AreLeased ctx.wireguard_peers
    → AreLeased (route_bootstrap_request env method path body ctx endpoints).1.wireguard_peers
unfolding route_bootstrap_request
route_bootstrap_request-AreLeased env method path body ctx endpoints w =
    let h = route_bootstrap_request env method path body ctx endpoints in
    let provisions : Bool =
      text_beq method post && text_beq (path_no_query path) wireguard_peer_path in
    let proves : Bool = text_beq (path_no_query path) (ascii "/v1/bootstrap/cert-proof") in
    let tells : Bool = text_beq (path_no_query path) (ascii "/v1/bootstrap/capabilities") in
    let kept : h.1 ≡ ctx → AreLeased h.1.wireguard_peers =
      λ e. subst (λ (c : BootstrapContext). AreLeased c.wireguard_peers) (sym e) w in
    elim (Bool-cases (proves || tells)) [
      | inl reads ↦ kept (ground arith)
      | inr other ↦ elim (Bool-cases provisions) [
        | inr reads ↦ kept (route_bootstrap_request_reads env method path body ctx endpoints reads)
        | inl changes ↦
            by_answer h (wireguard_peer_response env.requests env.writable env.now ctx body)
              (ground arith) (response-AreLeased env.requests env.writable env.now ctx body w)
      ]
    ]

-- A transport is named among those offered if and only if its endpoint is given.
pub capabilities_of-transports :
    (ctx : BootstrapContext) (endpoints : AdvertisedBootstrapEndpoints)
    → let offered = capabilities_of ctx endpoints in
      (any (text_beq (ascii "wss")) offered.transports ≡ true)
      × (any (text_beq (ascii "h3")) offered.transports
          ≡ (elim offered.h3 [ none ↦ false | some endpoint ↦ true ]))
      × (any (text_beq (ascii "wireguard")) offered.transports
          ≡ (elim offered.wireguard [ none ↦ false | some entry ↦ true ]))
unfolding capabilities_of wireguard_enabled wireguard_capability text_beq
capabilities_of-transports ctx endpoints = (refl, ground arith, ground arith)
