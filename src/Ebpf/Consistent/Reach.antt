-- ===== src/Ebpf/Consistent/Reach.antt =====
-- The states that a dataplane of natto64-ebpf/src/lib.rs can reach.
use natto.Common.{ℕ, ◌≡◌, ◌∙◌, ap, sym, none, some}
use mathlib.Core.Option
use natto.Abi.{Nat64Config, NatKey, NatVal, FwdNatKey}
use natto.Ebpf.Kernel.{Kernel, IsLruMap, TimedFwdNatVal}
use natto.Ebpf.World.{World}
use natto.Ebpf.Sessions.{current_cfg, default_cfg}
use natto.Ebpf.Sessions.Expiry.{session_timer_callback}
use natto.Ebpf.Forward.{try_nat64_forward}
use natto.Ebpf.Reverse.{try_nat64_reverse}
use natto.Ebpf.Consistent.{IsConsistent}
use natto.Ebpf.Consistent.Expiry.{
  session_timer_callback-IsConsistent, try_nat64_reverse-IsConsistent,
}
use natto.Ebpf.Consistent.Forward.Carrying.{try_nat64_forward-Forwards}

module _ {k : Kernel} where
  -- Another processor goes on, with its own cursor, ring and counters, or entries are evicted: the
  -- configuration stays, and no entry is new.
  pub record Shrinks (w v : World k) : Type 0 where
    pub same_config : v.config ≡ w.config
    pub fwd_kept :
        (key : FwdNatKey) (x : TimedFwdNatVal k.Timer)
        → k.fwd_maps.get v.fwd_nat key ≡ some x
        → k.fwd_maps.get w.fwd_nat key ≡ some x
    pub nat_kept :
        (key : NatKey) (x : NatVal)
        → k.nat_maps.get v.nat key ≡ some x
        → k.nat_maps.get w.nat key ≡ some x

  -- A packet in either direction, whatever it holds; a timer that fires, with anything of this list
  -- between its two readings; and what the kernel does by itself.
  mutual
    pub data Step : World k → World k → Type 0 where
      forwards :
          {w v : World k} (skb : k.Skb) (now prandom : ℕ)
          → v ≡ (try_nat64_forward skb now prandom w).0
          → Step w v
      replies :
          {w v : World k} (skb : k.Skb) (now : ℕ) → v ≡ (try_nat64_reverse skb now w).0 → Step w v
      expires :
          {w v : World k} (key : FwdNatKey) (now : ℕ) (between : World k → World k)
          → Reach w (between w)
          → v ≡ session_timer_callback key now between w
          → Step w v
      shrinks : {w v : World k} → Shrinks w v → Step w v

    pub data Reach : World k → World k → Type 0 where
      here : {w : World k} → Reach w w
      next : {w u v : World k} → Reach w u → Step u v → Reach w v

  -- A dataplane whose sessions have not begun.
  pub record IsFresh (cfg : Nat64Config) (w : World k) : Type 0 where
    pub has_config : current_cfg w ≡ cfg
    pub no_flow : (key : FwdNatKey) → k.fwd_maps.get w.fwd_nat key ≡ none
    pub no_session : (key : NatKey) → k.nat_maps.get w.nat key ≡ none

  pub IsFresh-IsConsistent : {cfg : Nat64Config} {w : World k} → IsFresh cfg w → IsConsistent cfg w
  IsFresh-IsConsistent fresh = record {
    has_config = fresh.has_config;
    fwd_ok = λ key v h. absurd (none-ne-some (sym (fresh.no_flow key) ∙ h));
    nat_ok = λ key v h. absurd (none-ne-some (sym (fresh.no_session key) ∙ h));
  }
    where
      none-ne-some : {A : Type 0} {x : A} → none ≡ some x → ⊥
      none-ne-some q = cc

  Shrinks-IsConsistent :
      {cfg : Nat64Config} {w v : World k} → Shrinks w v → IsConsistent cfg w → IsConsistent cfg v
  unfolding current_cfg
  Shrinks-IsConsistent s c = record {
    has_config = ap (λ x. Option.get_or x default_cfg) s.same_config ∙ c.has_config;
    fwd_ok = λ key x h. c.fwd_ok key x (s.fwd_kept key x h);
    nat_ok = λ key x h. c.nat_ok key x (s.nat_kept key x h);
  }

  module _ (fwd_laws : IsLruMap k.fwd_maps) (nat_laws : IsLruMap k.nat_maps)
      (cfg : Nat64Config) where
    mutual
      Step-IsConsistent : {w v : World k} → Step w v → IsConsistent cfg w → IsConsistent cfg v
      Step-IsConsistent {w} (forwards skb now prandom e) c =
          rw e (try_nat64_forward-Forwards fwd_laws nat_laws cfg skb now prandom w c).consistent
      Step-IsConsistent {w} (replies skb now e) c =
          rw e (try_nat64_reverse-IsConsistent fwd_laws nat_laws cfg skb now w c)
      Step-IsConsistent {w} (expires key now between reach e) c = rw e (
          session_timer_callback-IsConsistent fwd_laws nat_laws cfg key now between w c
            (Steps-IsConsistent reach c))
      Step-IsConsistent (shrinks s) c = Shrinks-IsConsistent s c

      Steps-IsConsistent : {w v : World k} → Reach w v → IsConsistent cfg w → IsConsistent cfg v
      Steps-IsConsistent here c = c
      Steps-IsConsistent (next reach step) c = Step-IsConsistent step (Steps-IsConsistent reach c)

    -- In every state that is reached from one without sessions, by any packets of either direction,
    -- timers that fire, with any such steps between their two readings, and evictions: each entry of
    -- the forward map has an external address that the reverse path accepts and a port of the
    -- configured range, so has the key of each entry of the reverse map, and the client of each is an
    -- address of 16 bytes.
    pub Reach-IsConsistent : {w v : World k} → IsFresh cfg w → Reach w v → IsConsistent cfg v
    Reach-IsConsistent fresh reach = Steps-IsConsistent reach (IsFresh-IsConsistent fresh)
