-- ===== src/Dhcp/Fsm.antt =====
-- The states of the DHCP client (EtherCard/dhcp.cpp).
use c64iec.Base.{
  ℕ, Bool-cases, ◌+◌, ◌/◌, ◌≤◌, ◌<◌, ◌≡◌, ◌≢◌, ◌⊎◌, inl, inr, refl, sym, ap, ◌∙◌, true, some, List,
  ltb, arith, if◌then◌else◌,
}
use c64iec.Dhcp.{
  State, bad, init, select, request, bound, renew, rebind, Dhcp, same_state, check_for_dhcp_answer,
  read_little,
}
use c64iec.Dhcp.Machine.{Round, renewal, fsm_switch, dhcp_lease}
use c64iec.Dhcp.Options.{check_for_dhcp_answer-accepted}

same_state-bad : (s : State) → same_state bad s ≡ true → s ≡ bad
same_state-bad bad h = refl
same_state-bad init h = ground arith
same_state-bad select h = ground arith
same_state-bad request h = ground arith
same_state-bad bound h = ground arith
same_state-bad renew h = ground arith
same_state-bad rebind h = ground arith

-- What holds of a message that is an answer to this client.
abbrev Answers : ℕ → Dhcp → Type 0
Answers len d =
    (42 < len)
    × (d.net.buffer 35 ≡ 67)
    × (d.net.buffer 42 ≡ 2)
    × (read_little d.net.buffer 46 ≡ d.current_xid)

accepted :
    (len : ℕ) (d : Dhcp) (s : State)
    → s ≢ bad
    → same_state (check_for_dhcp_answer len d) s ≡ true
    → Answers len d
accepted len d s good same =
    check_for_dhcp_answer-accepted len d
      λ e. good (same_state-bad s (ap (λ c. same_state c s) (sym e) ∙ same))

renewal-bound :
    (rc : State) (r : Round) (d : Dhcp)
    → d.state ≢ bound
    → (renewal rc r d).state ≡ bound
    → (same_state rc bound ≡ true) × ((renewal rc r d).lease_start ≡ r.first)
unfolding renewal
renewal-bound rc r d other h = ground arith

switch-request :
    (len : ℕ) (r : Round) (d : Dhcp)
    → (fsm_switch request len r d).state ≡ bound
    → (same_state (check_for_dhcp_answer len d) request ≡ true)
      × ((fsm_switch request len r d).lease_start ≡ r.first)
unfolding fsm_switch
switch-request len r d h = ground arith

select_lem :
    (len : ℕ) (r : Round) (d : Dhcp)
    → (fsm_switch select len r d).state
      ≡ (if same_state (check_for_dhcp_answer len d) select then request else init)
unfolding fsm_switch
select_lem len r d = elim (Bool-cases (same_state (check_for_dhcp_answer len d) select)) [
  | inl offered ↦ rw offered refl
  | inr refused ↦ rw refused refl
]

switch-select : (len : ℕ) (r : Round) (d : Dhcp) → (fsm_switch select len r d).state ≢ bound
switch-select len r d h = ground (arith, select_lem len r d, h)

renew_lem :
    (len : ℕ) (r : Round) (d : Dhcp)
    → (fsm_switch renew len r d ≡ renewal (check_for_dhcp_answer len d) r d)
      × (fsm_switch rebind len r d ≡ renewal (check_for_dhcp_answer len d) r d)
unfolding fsm_switch
renew_lem len r d = (refl, refl)

-- The client takes a lease only from an answer to its own message: when a round of the state machine
-- reaches BOUND from another state, that state was REQUEST, RENEW or REBIND, the frame is longer than
-- 42 bytes, comes from port 67 by its low byte and is a BOOTP reply with the transaction number of
-- this client, and the lease starts at the time of the round.
pub fsm_switch-bound :
    (s : State) (len : ℕ) (r : Round) (d : Dhcp)
    → d.state ≡ s
    → s ≢ bound
    → (fsm_switch s len r d).state ≡ bound
    → ((s ≡ request) ⊎ (s ≡ renew) ⊎ (s ≡ rebind))
      × Answers len d
      × ((fsm_switch s len r d).lease_start ≡ r.first)
fsm_switch-bound init len r d e other h = absurd (unfold fsm_switch in ground arith)
fsm_switch-bound select len r d e other h = absurd (switch-select len r d h)
fsm_switch-bound request len r d e other h =
    let (same, start) = switch-request len r d h in
    (inl refl, accepted len d request (ground arith) same, start)
fsm_switch-bound bound len r d e other h = absurd (other refl)
fsm_switch-bound renew len r d e other h =
    let l = (renew_lem len r d).0 in
    let (same, start) =
      renewal-bound (check_for_dhcp_answer len d) r d (λ b. other (sym e ∙ b))
        (ap (λ x. x.state) (sym l) ∙ h) in
    (inr (inl refl), accepted len d bound (ground arith) same, ap (λ x. x.lease_start) l ∙ start)
fsm_switch-bound rebind len r d e other h =
    let l = (renew_lem len r d).1 in
    let (same, start) =
      renewal-bound (check_for_dhcp_answer len d) r d (λ b. other (sym e ∙ b))
        (ap (λ x. x.state) (sym l) ∙ h) in
    (inr (inr refl), accepted len d bound (ground arith) same, ap (λ x. x.lease_start) l ∙ start)
fsm_switch-bound bad len r d e other h = absurd (unfold fsm_switch in ground arith)

-- In BOUND, while the clock and the lease have not wrapped, dhcpLease only compares the time with half
-- of the lease: it sends nothing, returns true, and moves to RENEW exactly when the time is past.
pub dhcp_lease-bound :
    (now start : ℕ) (rounds : List Round) (d : Dhcp)
    → d.state ≡ bound
    → 0 < d.lease_start
    → d.lease_start ≤ now
    → d.lease_start + d.lease_time < 4294967296
    → dhcp_lease now start rounds d
      ≡ some (
        record d { state = if ltb (d.lease_start + d.lease_time / 2) now then renew else bound },
        true,
      )
unfolding dhcp_lease
dhcp_lease-bound now start rounds d e pos le small = ground arith
