-- ===== src/Evidence/Packet/RoundTrip.antt =====
-- `VerificationPacket.from_dict` reads back what `to_dict` wrote.
use sat_sa_with_pqc.Base.{◌≡◌, refl, List, [], ◌∷◌, ok}
use sat_sa_with_pqc.Evidence.Packet.{
  SecurityCheck, VerificationPacket, checks_list, to_dict, read_check, read_checks, from_dict,
}

read_checks-checks_list : (cs : List SecurityCheck) → read_checks (checks_list cs) ≡ ok cs
unfolding read_checks checks_list read_check
read_checks-checks_list [] = refl
read_checks-checks_list (c ∷ cs) = rw (read_checks-checks_list cs)

-- For every packet, reading what `to_dict` wrote gives the packet back, its list of checks included.
pub packet_round_trip : (p : VerificationPacket) → from_dict (to_dict p) ≡ ok p
unfolding from_dict to_dict
packet_round_trip p = rw (read_checks-checks_list p.security_checks)
