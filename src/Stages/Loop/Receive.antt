-- ===== src/Stages/Loop/Receive.antt =====
-- HTTP-Protocol: what the loop over `recv` leaves of a descriptor: a task, a call that arms or
-- closes it, or, in the first server, nothing.
use cpp_web_server.Base.{
  ℕ, ◌+◌, ◌==◌, ◌≡◌, refl, subst, Bool, true, false, some, List, [], ◌∷◌, ◌++◌, if◌then◌else◌,
  arith,
}
use cpp_web_server.Kernel.{Syscall}
use cpp_web_server.Text.{Bytes}
use cpp_web_server.Conn.Transfer.{
  Arrival, RecvStop, peer_closed, recv_would_block, recv_error, received,
}
use cpp_web_server.Stages.Loop.{Stage, Serving, set_user, on_users, would_block, recv_end, receive}
use cpp_web_server.Stages.Watch.{Watch, disarmed, seen, parked}
use cpp_web_server.Base.{times, times-append}
use cpp_web_server.Stages.Loop.Accept.{seen-hang_up}
use cpp_web_server.Stages.Loop.Reach.{Stuck, Laws, lost_empty, lose}

pub bit : Bool → ℕ
bit true = 1
bit false = 0

pub bit_if : (b : Bool) → bit b ≡ (if b then 1 else 0)
unfolding bit
bit_if true = refl
bit_if false = refl

pub times-lose :
    (b : Bool) (fd i : ℕ) (lost : List ℕ)
    → times i (lose b fd lost) ≡ times i lost + (if fd == i then bit b else 0)
unfolding bit
times-lose true fd i lost = ground arith
times-lose false fd i lost = ground arith

times_last :
    (fd i : ℕ) (l : List ℕ) → times i (l ++ fd ∷ []) ≡ times i l + (if fd == i then 1 else 0)
times_last fd i l = ground (arith, times-append i l (fd ∷ []))

-- A descriptor after its event: what is queued and lost makes up for what is disarmed.
module _ {S E : Type 0} (stage : Stage S E) (k : Stuck S) (laws : Laws stage k) (listenfd : ℕ) where
  recv_end-parked :
      (stop : RecvStop) (fd : ℕ) (s : Serving S E) (i : ℕ)
      → times i (recv_end stage stop fd s).0.tasks
          + (if fd == i then bit (lost_empty k stop (stage.buffer (s.users fd))) else 0)
        ≡ times i s.tasks
          + (if fd == i then parked (seen i (recv_end stage stop fd s).1 disarmed) else 0)
  unfolding bit
  recv_end-parked peer_closed fd s i = ground (arith, seen-hang_up fd i disarmed)
  recv_end-parked recv_error fd s i = ground (arith, seen-hang_up fd i disarmed)
  recv_end-parked recv_would_block fd s i = go (stage.buffer (s.users fd))
    where
      go :
          (b : Bytes)
          → times i (would_block stage b fd s).0.tasks
              + (if fd == i then bit (lost_empty k recv_would_block b) else 0)
            ≡ times i s.tasks
              + (if fd == i then parked (seen i (would_block stage b fd s).1 disarmed) else 0)
      go [] = ground (arith, laws.empty_self fd)
      go (x ∷ xs) = ground (arith, times_last fd i s.tasks)

  -- What has come is put behind the buffer.
  abbrev pub with_received : ℕ → Arrival → Serving S E → Serving S E
  with_received fd a s =
      let c = s.users fd in set_user fd (stage.set_buffer (stage.buffer c ++ received a.chunks) c) s

  abbrev pub all_received : ℕ → Arrival → Serving S E → Bytes
  all_received fd a s =
      let c = s.users fd in stage.buffer (stage.set_buffer (stage.buffer c ++ received a.chunks) c)

  pub receive_end :
      (fd : ℕ) (a : Arrival) (s t : Serving S E) (calls : List Syscall)
      → receive stage fd a s ≡ some (t, calls)
      → recv_end stage a.stop fd (with_received fd a s) ≡ (t, calls)
  unfolding receive
  receive_end fd a s t calls e = go (recv_end stage a.stop fd (with_received fd a s)) e
    where
      go : (r : Serving S E × List Syscall) → on_users fd r ≡ some (t, calls) → r ≡ (t, calls)
      go r e = ground arith

  with_received_user :
      (fd : ℕ) (a : Arrival) (s : Serving S E)
      → stage.buffer ((with_received fd a s).users fd) ≡ all_received fd a s
  with_received_user fd a s = ground arith

  pub receive-parked :
      (fd : ℕ) (a : Arrival) (s t : Serving S E) (calls : List Syscall)
      → receive stage fd a s ≡ some (t, calls)
      → (i : ℕ)
      → times i t.tasks + (if fd == i then bit (lost_empty k a.stop (all_received fd a s)) else 0)
        ≡ times i s.tasks + (if fd == i then parked (seen i calls disarmed) else 0)
  receive-parked fd a s t calls e i =
      subst
        (λ b.
          times i t.tasks + (if fd == i then bit (lost_empty k a.stop b) else 0)
          ≡ times i s.tasks + (if fd == i then parked (seen i calls disarmed) else 0))
        (with_received_user fd a s)
        (subst
          (λ r.
            times i r.0.tasks
              + (if fd == i
                  then bit (lost_empty k a.stop (stage.buffer ((with_received fd a s).users fd)))
                  else 0)
            ≡ times i s.tasks + (if fd == i then parked (seen i r.1 disarmed) else 0))
          (receive_end fd a s t calls e) (recv_end-parked a.stop fd (with_received fd a s) i))

  -- On every other descriptor nothing is seen.
  pub recv_end_other :
      (stop : RecvStop) (fd : ℕ) (s : Serving S E) (i : ℕ) (w : Watch)
      → (fd == i) ≡ false
      → seen i (recv_end stage stop fd s).1 w ≡ w
  recv_end_other peer_closed fd s i w n = ground (arith, seen-hang_up fd i w)
  recv_end_other recv_error fd s i w n = ground (arith, seen-hang_up fd i w)
  recv_end_other recv_would_block fd s i w n = go (stage.buffer (s.users fd))
    where
      go : (b : Bytes) → seen i (would_block stage b fd s).1 w ≡ w
      go [] = laws.empty_other fd i w n
      go (x ∷ xs) = refl

  pub receive_other :
      (fd : ℕ) (a : Arrival) (s t : Serving S E) (calls : List Syscall)
      → receive stage fd a s ≡ some (t, calls)
      → (i : ℕ) (w : Watch) → (fd == i) ≡ false
      → seen i calls w ≡ w
  receive_other fd a s t calls e i w n =
      subst (λ r. seen i r.1 w ≡ w) (receive_end fd a s t calls e)
        (recv_end_other a.stop fd (with_received fd a s) i w n)
