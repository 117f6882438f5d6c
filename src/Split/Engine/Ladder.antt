-- ===== src/Split/Engine/Ladder.antt =====
-- The decision of crates/core/src/split/engine.rs against a declarative reading of its ladder.
use jamm_vpn.Base.{◌≡◌, sym, ◌∙◌, ◌⊎◌, inl, inr, ◌↔◌, Bool, true, false, arith, Bool-cases, any}
use jamm_vpn.Addr.{IsIp}
use jamm_vpn.Split.Config.{inclusive, exclusive, SplitConfig, app_selected, always_bypass_cidrs}
use jamm_vpn.Split.Engine.{
  Action, ConnRequest, Route, cidrs_contain, is_endpoint, intended, enforce, decide,
}
use jamm_vpn.Split.Engine.Local.{IsLocal, always_bypass_iff}

-- Never for the tunnel: the VPN server itself, local networks, and what the user sends directly.
abbrev pub IsExcepted : ConnRequest → SplitConfig → Type 0
IsExcepted req cfg =
    (any (is_endpoint req.dst_ip) cfg.server_endpoints ≡ true)
    ⊎ IsLocal req.dst_ip
    ⊎ (cidrs_contain cfg.force_direct_cidrs req.dst_ip ≡ true)

-- Meant for the tunnel: forced by address, or by the application and the mode.
abbrev pub WantsTunnel : ConnRequest → SplitConfig → Type 0
WantsTunnel req cfg =
    (cidrs_contain cfg.force_tunnel_cidrs req.dst_ip ≡ true)
    ⊎ ((cfg.mode ≡ inclusive) × (app_selected cfg req.app ≡ true))
    ⊎ ((cfg.mode ≡ exclusive) × (app_selected cfg req.app ≡ false))

intended_iff :
    (req : ConnRequest) (cfg : SplitConfig)
    → (intended req cfg ≡ Route.tunnel) ↔ WantsTunnel req cfg
unfolding intended
intended_iff req cfg = (λ e. ground arith, λ d. ground arith)

module _ (req : ConnRequest) (cfg : SplitConfig) (tunnel_up : Bool) (real : IsIp req.dst_ip) where
  excepted_direct : IsExcepted req cfg → decide req cfg tunnel_up ≡ Action.direct
  unfolding decide
  excepted_direct d = ground (arith, always_bypass_iff req.dst_ip real)

  not-IsExcepted :
      ¬ (IsExcepted req cfg) → decide req cfg tunnel_up ≡ enforce (intended req cfg) cfg tunnel_up
  unfolding decide
  not-IsExcepted n = ground (
    arith,
    always_bypass_iff req.dst_ip real,
    λ (h : any (is_endpoint req.dst_ip) cfg.server_endpoints ≡ true). n (inl h),
    λ (h : IsLocal req.dst_ip). n (inr (inl h)),
    λ (h : cidrs_contain cfg.force_direct_cidrs req.dst_ip ≡ true). n (inr (inr h)),
  )

  IsExcepted-or_not : IsExcepted req cfg ⊎ (¬ (IsExcepted req cfg))
  IsExcepted-or_not = elim (Bool-cases (any (is_endpoint req.dst_ip) cfg.server_endpoints)) [
    | inl t ↦ inl (inl t)
    | inr f ↦ elim (Bool-cases (cidrs_contain always_bypass_cidrs req.dst_ip)) [
      | inl t ↦ inl (inr (inl ((always_bypass_iff req.dst_ip real).0 t)))
      | inr g ↦ elim (Bool-cases (cidrs_contain cfg.force_direct_cidrs req.dst_ip)) [
        | inl t ↦ inl (inr (inr t))
        | inr h ↦ inr (λ d. elim d [
          | inl t ↦ cc
          | inr (inl l) ↦ cc ((always_bypass_iff req.dst_ip real).1 l)
          | inr (inr t) ↦ cc
        ])
      ]
    ]
  ]

enforce_iff :
    (r : Route) (cfg : SplitConfig) (up : Bool)
    → ((enforce r cfg up ≡ Action.tunnel) ↔ ((r ≡ Route.tunnel) × (up ≡ true)))
      × ((enforce r cfg up ≡ Action.block)
          ↔ ((r ≡ Route.tunnel) × (up ≡ false) × (cfg.kill_switch ≡ true)))
unfolding enforce
enforce_iff Route.direct cfg up = ((λ e. cc, λ d. cc (d.0)), (λ e. cc, λ d. cc (d.0)))
enforce_iff Route.tunnel cfg up =
    ((λ e. ground arith, λ d. ground arith), (λ e. ground arith, λ d. ground arith))

-- For a real destination address the decision is to tunnel exactly when the connection is not
-- excepted, is meant for the tunnel and the tunnel is up; it is to block exactly when the connection
-- is not excepted, is meant for the tunnel, the tunnel is down and the kill switch is on.
pub decide_iff :
    (req : ConnRequest) (cfg : SplitConfig) (up : Bool)
    → IsIp req.dst_ip
    → ((decide req cfg up ≡ Action.tunnel)
        ↔ ((¬ (IsExcepted req cfg)) × WantsTunnel req cfg × (up ≡ true)))
      × ((decide req cfg up ≡ Action.block) ↔ (
          (¬ (IsExcepted req cfg)) × WantsTunnel req cfg × (up ≡ false) × (cfg.kill_switch ≡ true)))
decide_iff req cfg up real = elim (IsExcepted-or_not req cfg up real) [
  | inl x ↦
      let e = excepted_direct req cfg up real x in
      ((λ t. cc, λ d. absurd (d.0 x)), (λ t. cc, λ d. absurd (d.0 x)))
  | inr n ↦
      let e = not-IsExcepted req cfg up real n in
      let (meant→, meant←) = intended_iff req cfg in
      let (tun, blk) = enforce_iff (intended req cfg) cfg up in
      (
        (
          λ t. let h = tun.0 (sym e ∙ t) in (n, meant→ h.0, h.1),
          λ d. e ∙ tun.1 (meant← (d.1), d.2),
        ),
        (
          λ t. let h = blk.0 (sym e ∙ t) in (n, meant→ h.0, h.1, h.2),
          λ d. e ∙ blk.1 (meant← (d.1), d.2, d.3),
        ),
      )
]

-- Swapping the mode swaps the outcome: with the tunnel up, a connection that is not excepted, and
-- whose address is not forced into the tunnel, is tunnelled in one mode exactly when it goes
-- directly in the other.
pub modes_opposite :
    (req : ConnRequest) (cfg : SplitConfig)
    → ¬ (IsExcepted req cfg)
    → IsIp req.dst_ip
    → cidrs_contain cfg.force_tunnel_cidrs req.dst_ip ≡ false
    → (decide req (record cfg { mode = inclusive }) true ≡ Action.tunnel)
      ↔ (decide req (record cfg { mode = exclusive }) true ≡ Action.direct)
unfolding intended enforce app_selected
modes_opposite req cfg n real f =
    let i = not-IsExcepted req (record cfg { mode = inclusive }) true real n in
    let e = not-IsExcepted req (record cfg { mode = exclusive }) true real n in
    (λ t. ground (arith, i, e), λ t. ground (arith, i, e))
