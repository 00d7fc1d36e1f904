-- ===== src/Abi/Samples.antt =====
-- natto64-abi/src/lib.rs: the diagnostic samples of the forward path.
use natto.Common.{ℕ, List}

pub record DbgIpv6Sample : Type 0 where
  pub seq : ℕ
  pub dst : List ℕ

pub record DbgFwdTcpSample : Type 0 where
  pub seq : ℕ
  pub dst6 : List ℕ
  pub dst4 : List ℕ
  pub dst4_be : ℕ
  pub src4_be : ℕ
  pub tcp_sport : ℕ
  pub tcp_dport : ℕ
  pub nat_insert_ok : ℕ
  pub adjust_room_ok : ℕ
  pub pad : List ℕ

pub record DbgFwdTcpCsumSample : Type 0 where
  pub seq : ℕ
  pub old_check_be : ℕ
  pub after_pseudo_be : ℕ
  pub after_port_be : ℕ
  pub final_check_be : ℕ
  pub old_sport_be : ℕ
  pub new_sport_be : ℕ
  pub pad : ℕ
  pub src_v4 : ℕ
  pub dst_v4 : ℕ
