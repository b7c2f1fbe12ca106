-- ===== src/Endpoint/Tests.antt =====
-- Runs of the endpoint with a small model of the nFAPI library: headers of ten bytes, with the segment
-- field in the last two.
use x_fapi.Prelude.{
  ℕ, zero, suc, ◌+◌, ◌-◌, ◌*◌, ◌/◌, ◌%◌, ◌^◌, ◌≤◌, ◌<◌, ◌≡◌, ◌≢◌, ◌==◌, refl, sym, ap, subst, true,
  List, [], ◌∷◌, ◌++◌, none, some, length, get_or, replicate, set, drop, map, arith,
  length-replicate,
}
use x_fapi.Endpoint.Segments.{Codec, Entry, cleared, find, handle_all}
use x_fapi.Endpoint.Segments.Laws.{IsSegmented, IsOrder, bodies}
use x_fapi.Endpoint.Segments.AnyOrder.{reassembly_lem}
use x_fapi.Endpoint.Send.{Packer, Vnf, seg_count, send_p7}
use x_fapi.Endpoint.Send.Laws.{IsPacker}
use x_fapi.Endpoint.Send.RoundTrip.{IsLibrary, reassemble-send_p7}
use x_fapi.Endpoint.RxPool.{
  RxPool, free_slot, pool_slots, rx_pool_acquire, rx_pool_release, IsRxPool, Acquired,
  rx_pool_acquire_lem, acquire-release,
}

abbrev field_of : List ℕ → ℕ
field_of d = get_or d 8 0 * 256 + get_or d 9 0

abbrev codec : Codec
codec = record {
  header_length = 10;
  unpack = λ d. some (record { message_id = 0; m_segment_sequence = field_of d });
  unpack_legacy = λ d. some (field_of d);
  get_more = λ m. m / 2 ^ 15;
  get_segment = λ m. m / 2 ^ 8 % 128;
  get_sequence = λ m. m % 256;
}

abbrev packer : Packer
packer = record {
  header_length = 10;
  set_mss = λ m s q. m % 2 * 2 ^ 15 + s % 128 * 2 ^ 8 + q % 256;
  update_checksum = λ buf. buf;
  pack = λ m. some (replicate 1510 9);
}

library : IsLibrary codec packer
library = record {
  one_header = refl;
  room = omega arith;
  word = λ m s q. omega arith;
  more_back = λ m s q a b c. omega (arith, a, b, c);
  segment_back = λ m s q a b c. omega (arith, a, b, c);
  sequence_back = λ m s q a b c. omega (arith, a, b, c);
  unpacks = λ d h. (record { message_id = 0; m_segment_sequence = field_of d }, (refl, refl));
}

keeps : IsPacker packer
keeps = record {
  header_fits = omega arith;
  same_length = λ buf. refl;
  same_body = λ buf. refl;
  same_segment = λ buf. (refl, refl);
}

abbrev table : List Entry
table = replicate 8 cleared

abbrev two_parts : ℕ → List ℕ
two_parts zero = replicate 8 0 ++ (128 ∷ 5 ∷ 1 ∷ [])
two_parts (suc i) = replicate 8 0 ++ (1 ∷ 5 ∷ 2 ∷ [])

two_parts-IsSegmented : IsSegmented codec two_parts 2 5
two_parts-IsSegmented = record {
  header = λ i. record { message_id = 0; m_segment_sequence = field_of (two_parts i) };
  unpacked = λ i low. refl;
  more = more;
  segment = segment;
  same_sequence = same;
  backed = backed;
  few = omega arith;
}
  where
    more : (i : ℕ) → i < 2 → (field_of (two_parts i) / 2 ^ 15 == 0) ≡ (i + 1 == 2)
    more zero low = refl
    more (suc zero) low = refl
    more (suc (suc i)) low = absurd (omega (arith, low))

    segment : (i : ℕ) → i < 2 → field_of (two_parts i) / 2 ^ 8 % 128 ≡ i
    segment zero low = refl
    segment (suc zero) low = refl
    segment (suc (suc i)) low = absurd (omega (arith, low))

    same : (i : ℕ) → i < 2 → field_of (two_parts i) % 256 ≡ 5
    same zero low = refl
    same (suc i) low = refl

    backed : (i : ℕ) → i < 2 → 10 ≤ length (two_parts i)
    backed zero low = omega arith
    backed (suc i) low = omega arith

order : IsOrder 2 (1 ∷ 0 ∷ [])
order = (refl, λ i. ground arith)

reassembly_lem_example :
    handle_all codec table (two_parts 1 ∷ two_parts 0 ∷ [])
    ≡ (set table 0 cleared, (replicate 8 0 ++ (128 ∷ 5 ∷ 1 ∷ 2 ∷ [])) ∷ [])
unfolding find cleared bodies
reassembly_lem_example =
    reassembly_lem codec two_parts 2 5 table 0 (1 ∷ 0 ∷ []) two_parts-IsSegmented (omega arith)
      order refl refl

abbrev vnf : Vnf
vnf = record { p7_sequence = 5; checksum_enabled = true; p7_addr_known = true }

abbrev packed : List ℕ
packed = replicate 1510 9

long : 1400 < length packed
long = subst (λ n. 1400 < n) (sym (length-replicate {A = ℕ} 1510 9)) (omega arith)

two_segments : seg_count packer packed ≡ 2
two_segments = ap (λ l. (l - 10 + (1400 - 10) - 1) / (1400 - 10)) (length-replicate {A = ℕ} 1510 9)

reassemble-send_p7_example :
    (msg : List ℕ) × ((handle_all codec table
          (map (λ i. get_or (send_p7 packer true (λ d. some (length d)) vnf).1.1 i []) (1 ∷ 0 ∷ []))
        ≡ (set table 0 cleared, msg ∷ []))
      × (drop 10 msg ≡ drop 10 packed))
unfolding find cleared
reassemble-send_p7_example =
    reassemble-send_p7 codec packer vnf packed keeps library long
      (subst (λ n. n ≤ 128) (sym two_segments) (omega arith)) (λ d. some (length d)) (λ d. refl)
      refl table 0 (1 ∷ 0 ∷ []) refl (subst (λ n. IsOrder n (1 ∷ 0 ∷ [])) (sym two_segments) order)
      refl refl

abbrev fresh_pool : RxPool
fresh_pool = record { slots = replicate pool_slots free_slot; next_hint = 7; acquire_fail = 0 }

fresh_pool-IsRxPool : IsRxPool fresh_pool
fresh_pool-IsRxPool = record {
  all_slots = length-replicate 256 free_slot;
  hint_inside = omega arith;
}

rx_pool_acquire_lem_example :
    Acquired fresh_pool (rx_pool_acquire fresh_pool) × IsRxPool (rx_pool_acquire fresh_pool).1
rx_pool_acquire_lem_example = rx_pool_acquire_lem fresh_pool fresh_pool-IsRxPool

acquire-release_example : (rx_pool_acquire (rx_pool_release fresh_pool (some 9))).0 ≢ none
acquire-release_example = acquire-release fresh_pool 9 fresh_pool-IsRxPool (omega arith)
