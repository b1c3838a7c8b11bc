-- ===== src/Icmp/Quotes.antt =====
-- What the messages of Lab10/12-nat/icmp.c repeat of the packets that they answer.
use ucas_computer_network_la.Prelude.{
  ℕ, suc, ◌+◌, ◌-◌, ◌≤◌, ◌≡◌, ◌≢◌, refl, ap, ◌∙◌, ◌⊎◌, inl, inr, false, ◌||◌, List, [], ◌∷◌, ◌++◌,
  none, some, arith, ltb, ◌==◌, Bool-cases, Option-cases, get_or, take, drop, length,
}
use ucas_computer_network_la.Route.{RtEntry, longest_prefix_match}
use ucas_computer_network_la.Icmp.{
  InPacket, Message, Sending, overrun, no_route, sends, echo_reply, report, icmp_send_packet,
  icmp_echoreply,
}

-- The packet is as long as its header says, and has the 8 bytes of an ICMP or UDP header.
abbrev pub IsWhole : InPacket → Type 0
IsWhole p = (p.tot_len ≡ length p.header + length p.payload) × (8 ≤ length p.payload)

-- An echo reply goes from where the request went to, and repeats all of it behind the first 4 bytes.
abbrev pub Echoes : InPacket → ℕ → ℕ → Message → Type 0
Echoes p saddr out_ip_len m =
    (saddr ≡ p.daddr)
    × (out_ip_len ≡ 20 + length p.payload)
    × (m.icmp_identifier ++ m.icmp_sequence ++ m.body ≡ drop 4 p.payload)

-- A report comes from the interface towards the sender, and quotes the IP header and 8 bytes.
abbrev pub Reports : List RtEntry → List ℕ → InPacket → ℕ → ℕ → Message → Type 0
Reports rtable ips p saddr out_ip_len m =
    (out_ip_len ≡ 36 + length p.header)
    × (m.body ≡ p.header ++ take 8 p.payload)
    × ((entry : RtEntry) × (longest_prefix_match p.saddr rtable ≡ some entry)
        × (saddr ≡ get_or ips entry.iface 0))

abbrev pub Quotes : List RtEntry → List ℕ → InPacket → ℕ → ℕ → Sending → Type 0
Quotes rtable ips p icmp_type code overrun = ⊥
Quotes rtable ips p icmp_type code no_route =
    (icmp_type ≢ icmp_echoreply) × (longest_prefix_match p.saddr rtable ≡ none)
Quotes rtable ips p icmp_type code (sends saddr daddr out_ip_len m) =
    (daddr ≡ p.saddr)
    × (m.icmp_type ≡ icmp_type)
    × (m.icmp_code ≡ code)
    × (((icmp_type ≡ icmp_echoreply) × Echoes p saddr out_ip_len m)
        ⊎ ((icmp_type ≢ icmp_echoreply) × Reports rtable ips p saddr out_ip_len m))

take-length : (xs : List ℕ) → take (length xs) xs ≡ xs
take-length [] = refl
take-length (x ∷ xs) = ap (λ ys. x ∷ ys) (take-length xs)

take-append : (n : ℕ) (xs ys : List ℕ) → take (length xs + n) (xs ++ ys) ≡ xs ++ take n ys
take-append n [] ys = ap (λ k. take k ys) (omega arith)
take-append n (x ∷ xs) ys =
    ap (λ k. take k (x ∷ xs ++ ys)) {y = suc (length xs + n)} (omega arith)
    ∙ ap (λ zs. x ∷ zs) (take-append n xs ys)

echo-pieces :
    (bytes : List ℕ)
    → 8 ≤ length bytes
    → take 2 (drop 4 bytes) ++ take 2 (drop 6 bytes) ++ take (length bytes - 8) (drop 8 bytes)
      ≡ drop 4 bytes
echo-pieces (a ∷ b ∷ c ∷ d ∷ e ∷ f ∷ g ∷ h ∷ rest) l =
    ap (λ n. e ∷ f ∷ g ∷ h ∷ take n rest) {y = length rest} (omega arith)
    ∙ ap (λ r. e ∷ f ∷ g ∷ h ∷ r) (take-length rest)
echo-pieces [] l = absurd (omega (arith, l))
echo-pieces (a ∷ []) l = absurd (omega (arith, l))
echo-pieces (a ∷ b ∷ []) l = absurd (omega (arith, l))
echo-pieces (a ∷ b ∷ c ∷ []) l = absurd (omega (arith, l))
echo-pieces (a ∷ b ∷ c ∷ d ∷ []) l = absurd (omega (arith, l))
echo-pieces (a ∷ b ∷ c ∷ d ∷ e ∷ []) l = absurd (omega (arith, l))
echo-pieces (a ∷ b ∷ c ∷ d ∷ e ∷ f ∷ []) l = absurd (omega (arith, l))
echo-pieces (a ∷ b ∷ c ∷ d ∷ e ∷ f ∷ g ∷ []) l = absurd (omega (arith, l))

-- A message for a packet that is whole goes to the sender of the packet, with the type and the code
-- given. An echo reply has the address that was asked for as its source and repeats the identifier,
-- the sequence number and the data; any other message has the address of the interface towards the
-- sender and quotes the IP header and the first 8 bytes behind it. None is sent only if the sender
-- has no route, and then the message is no echo reply. The copies stay within their arrays.
pub icmp_send_packet-Quotes :
    (rtable : List RtEntry) (ips : List ℕ) (p : InPacket) (icmp_type code : ℕ)
    → IsWhole p
    → Quotes rtable ips p icmp_type code (icmp_send_packet rtable ips p icmp_type code)
unfolding icmp_send_packet echo_reply report
icmp_send_packet-Quotes rtable ips p icmp_type code whole =
    elim (Bool-cases (icmp_type == icmp_echoreply)) [
      | inl echo ↦
          let fits : (ltb (length p.header + length p.payload) p.tot_len
                || ltb p.tot_len (length p.header + 8))
              ≡ false =
            ground (arith, whole) in
          let inner : p.tot_len - length p.header ≡ length p.payload = omega (arith, whole.0) in
          rw (echo, Quotes)
            (rw (fits, inner)
              (
                refl,
                ground (arith, echo),
                refl,
                inl (ground (arith, echo), (refl, refl, echo-pieces p.payload whole.1)),
              ))
      | inr other ↦
          let fits : ltb (length p.payload) 8 ≡ false = ground (arith, whole.1) in
          rw (other, Quotes)
            (rw fits (elim (Option-cases (longest_prefix_match p.saddr rtable)) [
              | inl e ↦ rw e (ground (arith, other), e)
              | inr (entry, e) ↦ rw e (
                refl,
                refl,
                refl,
                inr (
                  ground (arith, other),
                  (
                    omega arith,
                    ap (λ n. take n (p.header ++ p.payload)) {y = length p.header + 8} (omega arith)
                        ∙ take-append 8 p.header p.payload,
                    (entry, e, refl),
                  ),
                ),
              )
            ]))
    ]
