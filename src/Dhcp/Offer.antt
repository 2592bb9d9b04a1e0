-- ===== src/Dhcp/Offer.antt =====
-- Reading an offer (EtherCard/dhcp.cpp).
use c64iec.Base.{
  ℕ, zero, suc, ◌+◌, ◌≤◌, ◌≡◌, refl, sym, ap, ◌∙◌, Bool-cases, inl, inr, false, ltb, arith, copy,
  slice, slice-copy, if◌then◌else◌,
}
use c64iec.Dhcp.{Dhcp, take_option, option_loop, parse_dhcpoffer}

option_loop-suc :
    (fuel ptr len : ℕ) (d : Dhcp)
    → option_loop (suc fuel) ptr len d ≡ (
        if ltb (ptr + 2 + d.net.buffer (ptr + 1)) len
        then option_loop fuel
            (ptr + 2 + d.net.buffer (ptr + 1))
            len
            (take_option (d.net.buffer ptr) (ptr + 2) d)
        else take_option (d.net.buffer ptr) (ptr + 2) d)
unfolding option_loop
option_loop-suc fuel ptr len d = refl

option_loop-last :
    (fuel ptr len : ℕ) (d : Dhcp)
    → len ≤ ptr + 2
    → option_loop (suc fuel) ptr len d ≡ take_option (d.net.buffer ptr) (ptr + 2) d
option_loop-last fuel ptr len d h =
    let stop : ltb (ptr + 2 + d.net.buffer (ptr + 1)) len ≡ false = ground arith in
    option_loop-suc fuel ptr len d ∙ (rw stop refl)

-- The loop over the options of an offer ends by itself, whatever the bytes of the frame are: with more
-- rounds than bytes that are left, any further rounds change nothing.
pub option_loop-enough :
    (fuel more ptr len : ℕ) (d : Dhcp)
    → len ≤ ptr + fuel
    → option_loop (suc (fuel + more)) ptr len d ≡ option_loop (suc fuel) ptr len d
option_loop-enough zero more ptr len d h =
    option_loop-last (0 + more) ptr len d (omega arith)
    ∙ sym (option_loop-last 0 ptr len d (omega arith))
option_loop-enough (suc fuel) more ptr len d h =
    let next = ptr + 2 + d.net.buffer (ptr + 1) in
    let e : suc fuel + more ≡ suc (fuel + more) = omega arith in
    let ih =
      option_loop-enough fuel more next len (take_option (d.net.buffer ptr) (ptr + 2) d)
        (omega arith) in
    rw (e, option_loop-suc (suc (fuel + more)) ptr len d, option_loop-suc (suc fuel) ptr len d, ih)
      refl

-- No option changes the two addresses of the header.
take_option-keeps :
    (option at : ℕ) (d : Dhcp)
    → ((take_option option at d).net.myip ≡ d.net.myip)
      × ((take_option option at d).net.serverip ≡ d.net.serverip)
unfolding take_option
take_option-keeps option at d = ground arith

option_loop-keeps :
    (fuel ptr len : ℕ) (d : Dhcp)
    → ((option_loop fuel ptr len d).net.myip ≡ d.net.myip)
      × ((option_loop fuel ptr len d).net.serverip ≡ d.net.serverip)
option_loop-keeps zero ptr len d = unfold option_loop in (refl, refl)
option_loop-keeps (suc fuel) ptr len d =
    let k = take_option (d.net.buffer ptr) (ptr + 2) d in
    let (one, two) = take_option-keeps (d.net.buffer ptr) (ptr + 2) d in
    let (ih, ih') = option_loop-keeps fuel (ptr + 2 + d.net.buffer (ptr + 1)) len k in
    elim (Bool-cases (ltb (ptr + 2 + d.net.buffer (ptr + 1)) len)) [
      | inl more ↦ rw (option_loop-suc fuel ptr len d, more) (ih ∙ one, ih' ∙ two)
      | inr last ↦ rw (option_loop-suc fuel ptr len d, last) (one, two)
    ]

-- The state in which the loop starts.
abbrev headed : Dhcp → Dhcp
headed d = record d {
  net = record d.net {
    myip = copy 0 d.net.buffer 58 4 d.net.myip;
    serverip = copy 0 d.net.buffer 62 4 d.net.serverip;
  };
}

parse_dhcpoffer_lem :
    (len : ℕ) (d : Dhcp) → parse_dhcpoffer len d ≡ option_loop (suc len) 282 len (headed d)
unfolding parse_dhcpoffer
parse_dhcpoffer_lem len d = refl

-- Whatever the options are, after parse_dhcpoffer the firmware's own address is the one that is offered,
-- and the address of the TFTP server is that of the next server, the four bytes behind it.
pub parse_dhcpoffer-addresses :
    (len : ℕ) (d : Dhcp)
    → (slice (parse_dhcpoffer len d).net.myip 0 4 ≡ slice d.net.buffer 58 4)
      × (slice (parse_dhcpoffer len d).net.serverip 0 4 ≡ slice d.net.buffer 62 4)
parse_dhcpoffer-addresses len d =
    let k = headed d in
    let (ip, server) = option_loop-keeps (suc len) 282 len k in
    rw (parse_dhcpoffer_lem len d) (
      ap (λ m. slice m 0 4) ip ∙ slice-copy 0 d.net.buffer 58 4 d.net.myip,
      ap (λ m. slice m 0 4) server ∙ slice-copy 0 d.net.buffer 62 4 d.net.serverip,
    )
