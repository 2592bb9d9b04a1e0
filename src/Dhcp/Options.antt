-- ===== src/Dhcp/Options.antt =====
-- Scanning the options of an answer (EtherCard/dhcp.cpp).
use c64iec.Base.{
  ℕ, zero, suc, ◌+◌, ◌≤◌, ◌<◌, ◌≡◌, ◌≢◌, refl, sym, ◌∙◌, not, ◌||◌, ◌==◌, ltb, arith, Memory,
  if◌then◌else◌, word, sub16,
}
use c64iec.Dhcp.{State, bad, Dhcp, scan, answer_state, check_for_dhcp_answer, read_little}

scan-past : (fuel i offset : ℕ) (b : Memory) (s : State) → offset ≤ i → scan fuel i offset b s ≡ bad
unfolding scan
scan-past zero i offset b s h = refl
scan-past (suc fuel) i offset b s h = ground arith

scan-suc :
    (fuel i offset : ℕ) (b : Memory) (s : State)
    → scan (suc fuel) i offset b s ≡ (
        if b (282 + i) == 255 || not (ltb i offset)
        then bad
        else if b (282 + i) == 53
        then answer_state (b (282 + i + 2)) s
        else scan fuel (i + b (282 + i + 1) + 1) offset b s)
unfolding scan
scan-suc fuel i offset b s = refl

-- The scan of the options ends by itself: with more rounds than bytes that are left, any further rounds
-- change nothing, whatever the bytes of the frame are.
pub scan-enough :
    (fuel more i offset : ℕ) (b : Memory) (s : State)
    → offset < i + fuel
    → scan (fuel + more) i offset b s ≡ scan fuel i offset b s
scan-enough zero more i offset b s h =
    scan-past (0 + more) i offset b s (omega arith) ∙ sym (scan-past 0 i offset b s (omega arith))
scan-enough (suc fuel) more i offset b s h =
    let e : suc fuel + more ≡ suc (fuel + more) = omega arith in
    let ih = scan-enough fuel more (i + b (282 + i + 1) + 1) offset b s (omega arith) in
    rw (e, scan-suc (fuel + more) i offset b s, scan-suc fuel i offset b s, ih) refl

scan-misread :
    (fuel l offset : ℕ) (b : Memory) (s : State)
    → b 282 ≢ 53
    → b 283 ≡ l
    → b (283 + l) ≡ 255
    → scan (suc fuel) 0 offset b s ≡ bad
scan-misread zero l offset b s other value last =
    rw (scan-suc zero 0 offset b s) (unfold scan in ground arith)
scan-misread (suc fuel) l offset b s other value last =
    let at : 282 + (0 + b 283 + 1) ≡ 283 + l = omega arith in
    rw (scan-suc (suc fuel) 0 offset b s, scan-suc fuel (0 + b 283 + 1) offset b s, at)
      (ground arith)

-- The scan moves to the last byte of an option's value, not behind it. So an answer whose first
-- option, of another kind than 53, has a value of l bytes that ends in 255 is refused in every state,
-- whatever its message type is.
pub check_for_dhcp_answer-misread :
    (len l : ℕ) (d : Dhcp)
    → d.net.buffer 282 ≢ 53
    → d.net.buffer 283 ≡ l
    → d.net.buffer (283 + l) ≡ 255
    → check_for_dhcp_answer len d ≡ bad
unfolding check_for_dhcp_answer
check_for_dhcp_answer-misread len l d other value last =
    let e =
      scan-misread (sub16 (word (d.net.buffer 16) (d.net.buffer 17)) 268) l
        (sub16 (word (d.net.buffer 16) (d.net.buffer 17)) 268) d.net.buffer d.state other value
        last in
    ground (arith, e)

-- What check_for_dhcp_answer asks of a frame before it looks for the message type.
pub check_for_dhcp_answer-accepted :
    (len : ℕ) (d : Dhcp)
    → check_for_dhcp_answer len d ≢ bad
    → (42 < len)
      × (d.net.buffer 35 ≡ 67)
      × (d.net.buffer 42 ≡ 2)
      × (read_little d.net.buffer 46 ≡ d.current_xid)
unfolding check_for_dhcp_answer
check_for_dhcp_answer-accepted len d h = ground arith
