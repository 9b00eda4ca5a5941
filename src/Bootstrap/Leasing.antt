-- ===== src/Bootstrap/Leasing.antt =====
-- Which requests lease a WireGuard address, and what they are answered.
use bonded.Peers.{WireGuardPeerRegistry, RegisteredWireGuardPeer, PeersError, register_peer_lease}
use bonded.Bootstrap.Routes.{AdvertisedBootstrapEndpoints, BootstrapContext, peer_lease}
use bonded.Bootstrap.{status_ok}
use bonded.PeerShare.Introduce.{is_empty}
use bonded.Prelude.Texts.{trim}
use bonded.Bootstrap.Provisioning.{
  AreLeased, route_bootstrap_request_reads, route_bootstrap_request-AreLeased,
}
use bonded.Bootstrap.Handlers.{
  Environment, Handled, leased, provision, wireguard_peer_response, route_bootstrap_request,
  path_no_query, post, wireguard_peer_path,
}
use bonded.Prelude.{
  ap, ◌∙◌, List-cases, ◌≡◌, ◌≢◌, refl, sym, subst, false, ◌&&◌, Option, none, some, Text, text_beq,
  text_beq_iff, [], ◌∷◌, ascii, Outcome, ok, err, Bool-cases, Option-cases, inl, inr, arith, ◌⊎◌,
}

-- The request is one for a lease: a POST to the path of the peers, on a server with WireGuard, with a
-- body that names a device key and a WireGuard key.
pub record Asks (env : Environment) (method path body : Text) (ctx : BootstrapContext)
    : Type 0 where
  pub posted : method ≡ ascii "POST"
  pub at_path : path_no_query path ≡ ascii "/v1/bootstrap/wireguard/peer"
  pub server_key : Text
  pub enabled : ctx.wireguard_public_key ≡ some server_key
  pub peers : WireGuardPeerRegistry
  pub registry : ctx.wireguard_peers ≡ some peers
  pub device_public_key : Text
  pub wg_public_key : Text
  pub named : env.requests.read_provisioning (trim body) ≡ some (device_public_key, wg_public_key)
  pub device_given : device_public_key ≢ []
  pub wg_given : wg_public_key ≢ []

-- Something of this is missing.
abbrev pub LacksSomething : Environment → Text → Text → Text → BootstrapContext → Type 0
LacksSomething env method path body ctx =
    (method ≢ ascii "POST")
    ⊎ (path_no_query path ≢ ascii "/v1/bootstrap/wireguard/peer")
    ⊎ (ctx.wireguard_public_key ≡ none)
    ⊎ (ctx.wireguard_peers ≡ none)
    ⊎ (env.requests.read_provisioning (trim body) ≡ none)
    ⊎ ((wg : Text) × (env.requests.read_provisioning (trim body) ≡ some ([], wg)))
    ⊎ ((device : Text) × (env.requests.read_provisioning (trim body) ≡ some (device, [])))

-- The lease that is asked for is registered, the answer is the lease with the server's key, or the
-- request ends on the registry's failure, and nothing else of the context changes.
abbrev pub Answers :
    (env : Environment) (method path body : Text) (ctx : BootstrapContext)
    → Asks env method path body ctx
    → Handled
    → Type 0
Answers env method path body ctx asks h =
    let r =
      register_peer_lease env.writable env.now asks.device_public_key asks.wg_public_key
        asks.peers in
    (h.1 ≡ record ctx { wireguard_peers = some r.1 })
    × (((peer : RegisteredWireGuardPeer) × (r.0 ≡ ok peer)
          × (h.0 ≡ ok (status_ok, peer_lease asks.server_key peer)))
        ⊎ ((e : PeersError) × (r.0 ≡ err e) × (h.0 ≡ err e)))

dec_text : (a b : Text) → (a ≡ b) ⊎ (a ≢ b)
dec_text a b = elim (Bool-cases (text_beq a b)) [
  | inl same ↦ inl ((text_beq_iff a b).0 same)
  | inr other ↦ inr (λ e. ground (arith, (text_beq_iff a b).1 e))
]

-- The request reaches the handler of the path.
routed :
    (env : Environment) (method path body : Text) (ctx : BootstrapContext)
    (endpoints : Option AdvertisedBootstrapEndpoints)
    → method ≡ ascii "POST"
    → path_no_query path ≡ ascii "/v1/bootstrap/wireguard/peer"
    → route_bootstrap_request env method path body ctx endpoints
      ≡ wireguard_peer_response env.requests env.writable env.now ctx body
unfolding route_bootstrap_request text_beq
routed env method path body ctx endpoints posted at_path =
    rw (posted, at_path, route_bootstrap_request) refl

given : (t : Text) → t ≢ [] → is_empty t ≡ false
given [] h = absurd (h refl)
given (c ∷ cs) h = refl

handled :
    (env : Environment) (method path body : Text) (ctx : BootstrapContext)
    (asks : Asks env method path body ctx)
    → wireguard_peer_response env.requests env.writable env.now ctx body
      ≡ leased asks.server_key ctx (
          register_peer_lease env.writable env.now asks.device_public_key asks.wg_public_key
            asks.peers)
unfolding wireguard_peer_response provision
handled env method path body ctx asks =
    let device = given asks.device_public_key asks.device_given in
    let wg = given asks.wg_public_key asks.wg_given in
    ground (arith, asks.enabled, asks.registry, asks.named)

-- What `leased` makes of the registry's result.
leased-cases :
    (key : Text) (ctx : BootstrapContext)
    (r : Outcome PeersError RegisteredWireGuardPeer × WireGuardPeerRegistry)
    → ((leased key ctx r).1 ≡ record ctx { wireguard_peers = some r.1 })
      × (((peer : RegisteredWireGuardPeer) × (r.0 ≡ ok peer)
            × ((leased key ctx r).0 ≡ ok (status_ok, peer_lease key peer)))
          ⊎ ((e : PeersError) × (r.0 ≡ err e) × ((leased key ctx r).0 ≡ err e)))
unfolding leased
leased-cases key ctx (ok peer, peers) = (refl, inl (peer, refl, refl))
leased-cases key ctx (err e, peers) = (refl, inr (e, refl, refl))

answered :
    (env : Environment) (method path body : Text) (ctx : BootstrapContext)
    (endpoints : Option AdvertisedBootstrapEndpoints) (asks : Asks env method path body ctx)
    → Answers env method path body ctx asks
        (route_bootstrap_request env method path body ctx endpoints)
answered env method path body ctx endpoints asks =
    subst (Answers env method path body ctx asks)
      (sym (
        routed env method path body ctx endpoints asks.posted asks.at_path
        ∙ handled env method path body ctx asks))
      (leased-cases asks.server_key ctx (
        register_peer_lease env.writable env.now asks.device_public_key asks.wg_public_key
          asks.peers))

request_cases :
    (env : Environment) (method path body : Text) (ctx : BootstrapContext)
    → Asks env method path body ctx ⊎ LacksSomething env method path body ctx
request_cases env method path body ctx = elim (dec_text method (ascii "POST")) [
  | inr other ↦ inr (inl other)
  | inl posted ↦ elim (dec_text (path_no_query path) (ascii "/v1/bootstrap/wireguard/peer")) [
    | inr elsewhere ↦ inr (inr (inl elsewhere))
    | inl at_path ↦ elim (Option-cases ctx.wireguard_public_key) [
      | inl keyless ↦ inr (inr (inr (inl keyless)))
      | inr (key, keyed) ↦ elim (Option-cases ctx.wireguard_peers) [
        | inl peerless ↦ inr (inr (inr (inr (inl peerless))))
        | inr (peers, there) ↦ elim (Option-cases (env.requests.read_provisioning (trim body))) [
          | inl unread ↦ inr (inr (inr (inr (inr (inl unread)))))
          | inr ((device, wg), read) ↦ elim (List-cases device) [
            | inl blank ↦ inr (inr (inr (inr (inr (inr (inl (wg, rw (sym blank) read)))))))
            | inr (c, cs, dg) ↦ elim (List-cases wg) [
              | inl blank ↦ inr (inr (inr (inr (inr (inr (inr (device, rw (sym blank) read)))))))
              | inr (d, ds, wgg) ↦ inl (record {
                posted = posted;
                at_path = at_path;
                server_key = key;
                enabled = keyed;
                peers = peers;
                registry = there;
                device_public_key = device;
                wg_public_key = wg;
                named = read;
                device_given = λ e. ground arith;
                wg_given = λ e. ground arith;
              })
            ]
          ]
        ]
      ]
    ]
  ]
]

response_lacking :
    (env : Environment) (method path body : Text) (ctx : BootstrapContext)
    → method ≡ ascii "POST"
    → path_no_query path ≡ ascii "/v1/bootstrap/wireguard/peer"
    → LacksSomething env method path body ctx
    → (wireguard_peer_response env.requests env.writable env.now ctx body).1 ≡ ctx
unfolding wireguard_peer_response provision
response_lacking env method path body ctx p q l = elim l [
  | inl other ↦ absurd (other p)
  | inr (inl elsewhere) ↦ absurd (elsewhere q)
  | inr (inr (inl keyless)) ↦ ground arith
  | inr (inr (inr (inl peerless))) ↦ ground arith
  | inr (inr (inr (inr (inl unread)))) ↦ ground arith
  | inr (inr (inr (inr (inr (inl (wg, read)))))) ↦ ground arith
  | inr (inr (inr (inr (inr (inr (device, read)))))) ↦ ground arith
]

lacking :
    (env : Environment) (method path body : Text) (ctx : BootstrapContext)
    (endpoints : Option AdvertisedBootstrapEndpoints)
    → LacksSomething env method path body ctx
    → (route_bootstrap_request env method path body ctx endpoints).1 ≡ ctx
lacking env method path body ctx endpoints l =
    elim (Bool-cases (text_beq method post && text_beq (path_no_query path) wireguard_peer_path)) [
      | inr reads ↦ route_bootstrap_request_reads env method path body ctx endpoints reads
      | inl asked ↦
          let by_post = text_beq_iff method (ascii "POST") in
          let by_path = text_beq_iff (path_no_query path) (ascii "/v1/bootstrap/wireguard/peer") in
          let p : method ≡ ascii "POST" = by_post.0 (ground arith) in
          let q : path_no_query path ≡ ascii "/v1/bootstrap/wireguard/peer" =
            by_path.0 (ground arith) in
          ap (λ h. h.1) (routed env method path body ctx endpoints p q)
          ∙ response_lacking env method path body ctx p q l
    ]

-- Of all requests only a POST to the path of the WireGuard peers, on a server with WireGuard, whose body
-- names a device key and a WireGuard key that are both not empty, changes anything. For such a request
-- the lease is registered, the answer is the lease with the server's key, or the request ends on the
-- registry's failure, and the rest of the context is kept. Registered peers that had addresses of their own have them after any
-- request.
pub route_bootstrap_request-leases :
    (env : Environment) (method path body : Text) (ctx : BootstrapContext)
    (endpoints : Option AdvertisedBootstrapEndpoints)
    → AreLeased ctx.wireguard_peers
    → let h = route_bootstrap_request env method path body ctx endpoints in
      (((asks : Asks env method path body ctx) × Answers env method path body ctx asks h)
        ⊎ (LacksSomething env method path body ctx × (h.1 ≡ ctx)))
      × AreLeased h.1.wireguard_peers
route_bootstrap_request-leases env method path body ctx endpoints w = (
  elim (request_cases env method path body ctx) [
    | inl asks ↦ inl (asks, answered env method path body ctx endpoints asks)
    | inr l ↦ inr (l, lacking env method path body ctx endpoints l)
  ],
  route_bootstrap_request-AreLeased env method path body ctx endpoints w,
)
