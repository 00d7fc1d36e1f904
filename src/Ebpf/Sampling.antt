-- ===== src/Ebpf/Sampling.antt =====
-- natto64-ebpf/src/lib.rs: the diagnostics of the forward path.
use natto.Common.{
  ℕ, ◌%◌, List, [], ◌∷◌, Bool, true, false, ◌&&◌, none, some, ltb, ◌==◌, if◌then◌else◌, length, set,
  take, byte_at, bit_and, wrapping_add32, saturating_add, replicate,
}
use natto.Abi.Samples.{DbgIpv6Sample, DbgFwdTcpSample, DbgFwdTcpCsumSample}
use natto.Abi.DebugCounters.{
  dbg_fwd_dst_nat64_prefix, dbg_fwd_dst_multicast, dbg_fwd_dst_link_local,
  dbg_fwd_dst_global_non_nat64, dbg_fwd_dst_other, dbg_fwd_tcp_csum_sample_attempt,
  dbg_fwd_tcp_csum_sample_ok, dbg_fwd_tcp_csum_sample_err,
}
use natto.Ebpf.Kernel.{Kernel}
use natto.Ebpf.World.{World, with_counters}
use natto.Ebpf.Packet.Transport.{FwdL4CsumTrace}
use natto.Ebpf.Reverse.Rewrite.{nat64_wkpf_prefix}

-- Equality of two arrays.
unfoldable pub same_bytes : List ℕ → List ℕ → Bool
same_bytes [] [] = true
same_bytes (x ∷ xs) (y ∷ ys) = x == y && same_bytes xs ys
same_bytes _ _ = false

abbrev pub sample_slots : ℕ
sample_slots = 8

module _ {k : Kernel} where
  unfoldable pub record_fwd_dst_sample : List ℕ → World k → World k
  record_fwd_dst_sample dst w = elim w.samples.fwd_dst_cursor [
    | none ↦ w
    | some cursor ↦
        let sample : DbgIpv6Sample = record { seq = saturating_add cursor 1; dst = dst } in
        record w {
          samples = record w.samples {
            fwd_dst = set w.samples.fwd_dst (cursor % sample_slots) sample;
            fwd_dst_cursor = some (wrapping_add32 cursor 1);
          };
        }
  ]

  unfoldable pub record_fwd_tcp_sample :
      List ℕ → List ℕ → ℕ → ℕ → ℕ → ℕ → Bool → Bool → World k → World k
  record_fwd_tcp_sample dst6 dst4 dst4_be src4_be sport dport nat_insert_ok adjust_room_ok w =
      elim w.samples.fwd_tcp_cursor [
        | none ↦ w
        | some current ↦
            let seq = wrapping_add32 current 1 in
            let sample : DbgFwdTcpSample = record {
              seq = seq;
              dst6 = dst6;
              dst4 = dst4;
              dst4_be = dst4_be;
              src4_be = src4_be;
              tcp_sport = sport;
              tcp_dport = dport;
              nat_insert_ok = if nat_insert_ok then 1 else 0;
              adjust_room_ok = if adjust_room_ok then 1 else 0;
              pad = replicate 6 0;
            } in
            record w {
              samples = record w.samples {
                fwd_tcp = set w.samples.fwd_tcp (seq % sample_slots) sample;
                fwd_tcp_cursor = some seq;
              };
            }
      ]

  unfoldable pub record_fwd_tcp_csum_sample : FwdL4CsumTrace → ℕ → ℕ → ℕ → ℕ → ℕ → World k → World k
  record_fwd_tcp_csum_sample trace final_check_be old_sport_be new_sport_be src_v4 dst_v4 w0 =
      let w = with_counters [] (dbg_fwd_tcp_csum_sample_attempt ∷ []) w0 in
      elim w.samples.fwd_tcp_csum_cursor [
        | none ↦ with_counters [] (dbg_fwd_tcp_csum_sample_err ∷ []) w
        | some current ↦
            let seq = wrapping_add32 current 1 in
            let moved = record w {
              samples = record w.samples { fwd_tcp_csum_cursor = some seq };
            } in
            let sample : DbgFwdTcpCsumSample = record {
              seq = seq;
              old_check_be = trace.old_check_be;
              after_pseudo_be = trace.after_pseudo_be;
              after_port_be = trace.after_port_be;
              final_check_be = final_check_be;
              old_sport_be = old_sport_be;
              new_sport_be = new_sport_be;
              pad = 0;
              src_v4 = src_v4;
              dst_v4 = dst_v4;
            } in
            if ltb (seq % sample_slots) (length moved.samples.fwd_tcp_csum)
            then with_counters [] (dbg_fwd_tcp_csum_sample_ok ∷ []) (record moved {
              samples = record moved.samples {
                fwd_tcp_csum = set moved.samples.fwd_tcp_csum (seq % sample_slots) sample;
              };
            })
            else with_counters [] (dbg_fwd_tcp_csum_sample_err ∷ []) moved
      ]

  unfoldable pub classify_fwd_dst : List ℕ → World k → World k
  classify_fwd_dst dst w =
      if same_bytes (take 12 dst) nat64_wkpf_prefix
      then with_counters [] (dbg_fwd_dst_nat64_prefix ∷ []) w
      else if byte_at dst 0 == 0xff
      then with_counters [] (dbg_fwd_dst_multicast ∷ []) w
      else if byte_at dst 0 == 0xfe && bit_and (byte_at dst 1) 0xc0 == 0x80
      then with_counters [] (dbg_fwd_dst_link_local ∷ []) w
      else if bit_and (byte_at dst 0) 0xe0 == 0x20
      then with_counters [] (dbg_fwd_dst_global_non_nat64 ∷ []) w
      else with_counters [] (dbg_fwd_dst_other ∷ []) w
