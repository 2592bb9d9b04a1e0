-- ===== src/Net/ArpRequest.antt =====
-- The ARP request for a host (EtherCard/tcpip.cpp).
use c64iec.Base.{ℕ, ◌≡◌, refl, List, [], ◌∷◌, ◌++◌, Memory, slice, store}
use c64iec.Net.{Net, client_arp_whohas, set_macs, packet_send}

abbrev six : ℕ → List ℕ
six x = x ∷ x ∷ x ∷ x ∷ x ∷ x ∷ []

-- A broadcast that asks who has the address, with the firmware's own two addresses.
unfoldable pub arp_request : Memory → Net → List ℕ
arp_request ip n =
    six 255
    ++ (slice n.mymac 0 6
        ++ ((8 ∷ 6 ∷ 0 ∷ 1 ∷ 8 ∷ 0 ∷ 6 ∷ 4 ∷ 0 ∷ 1 ∷ [])
            ++ (slice n.mymac 0 6 ++ (slice n.myip 0 4 ++ (six 0 ++ slice ip 0 4)))))

pub client_arp_whohas-sent :
    (ip : Memory) (n : Net) → (client_arp_whohas ip n).sent ≡ arp_request ip n ∷ n.sent
unfolding client_arp_whohas arp_request set_macs packet_send slice store
client_arp_whohas-sent ip n = refl
