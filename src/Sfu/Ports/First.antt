-- ===== src/Sfu/Ports/First.antt =====
-- Which port `get_free_video_port` and `get_free_audio_port` of src/mediasoupv1/mod.rs find.
use mathlib.Core.Path.{subst}
use doordarshan_media_server.Base.{
  ℕ, zero, suc, ◌+◌, ◌*◌, ◌-◌, ◌≤◌, ◌<◌, ◌≡◌, sym, String, Bool, true, false, inl, inr, Bool-cases,
  arith, if◌then◌else◌, ltb, Outcome, ok, err, panic,
}
use doordarshan_media_server.Base.Action.{◌>>=◌, pure}
use doordarshan_media_server.Sfu.Platform.{Platform}
use doordarshan_media_server.Sfu.Server.{Server, Handler}
use doordarshan_media_server.Sfu.Ports.{
  udp_bind, scan_ports, get_free_port, get_free_video_port, get_free_audio_port,
}

-- What holds of the first of a sequence, and of the sequence after it.
later_each :
    (start : ℕ) (P : ℕ → Type 0) (i j : ℕ)
    → P start
    → ((k : ℕ) → k < i → P (start + 2 + 2 * k))
    → j < suc i
    → P (start + 2 * j)
later_each start P i zero first rest h =
    let e : start ≡ start + 2 * 0 = omega arith in subst P e first
later_each start P i (suc j) first rest h =
    let e : start + 2 + 2 * j ≡ start + 2 * suc j = omega arith in
    subst P e (rest j (omega (arith, h)))

module _ (free : ℕ → Bool) where
  -- The first free port of every second one of a range, or an error if none is free; no panic.
  abbrev pub IsFirst : ℕ → ℕ → Outcome String ℕ → Type 0
  IsFirst start last (ok port) =
      (i : ℕ) × (port ≡ start + 2 * i)
      × (port < last)
      × (free port ≡ true)
      × ((j : ℕ) → j < i → free (start + 2 * j) ≡ false)
  IsFirst start last (err e) = (j : ℕ) → start + 2 * j < last → free (start + 2 * j) ≡ false
  IsFirst start last panic = 0 < 0

  past_end : (start last : ℕ) (e : String) → last ≤ start → IsFirst start last (err e)
  past_end start last e h j k = absurd (omega (arith, h, k))

  -- A port that is taken is passed over.
  later :
      (start last : ℕ) (o : Outcome String ℕ)
      → free start ≡ false
      → IsFirst (start + 2) last o
      → IsFirst start last o
  later start last (ok port) taken (i, at, small, is_free, before) = (
    suc i,
    omega (arith, at),
    small,
    is_free,
    λ j h. later_each start (λ n. free n ≡ false) i j taken before h,
  )
  later start last (err e) taken none_free = λ j h.
      later_each start (λ n. (n < last) → free n ≡ false) (suc j) j (λ _. taken)
        (λ k _ small. none_free k small) (omega arith) h
  later start last panic taken h = h

module _ (x : Platform) (free : ℕ → Bool)
    (binds : (port : ℕ) (w : x.World) → (x.udp_bind port w).0 ≡ free port) where
  abbrev no_ports : String
  no_ports = "No free ports available for recording"

  -- The rest of a round, from what the bind answered.
  round-IsFirst :
      (b : Bool) (start last : ℕ) (rest : Handler x ℕ) (s : Server x)
      → free start ≡ b
      → start < last
      → IsFirst free (start + 2) last (rest s).0
      → IsFirst free start last ((if b then pure start else rest) s).0
  round-IsFirst true start last rest s e h rest_first =
      (0, omega arith, h, e, λ j k. absurd (omega (arith, k)))
  round-IsFirst false start last rest s e h rest_first =
      later free start last (rest s).0 e rest_first

  scan_ports-IsFirst :
      (fuel start last : ℕ) (s : Server x)
      → last ≤ start + fuel
      → IsFirst free start last (scan_ports x fuel start last s).0
  unfolding scan_ports udp_bind ◌>>=◌
  scan_ports-IsFirst zero start last s h = past_end free start last no_ports (omega (arith, h))
  scan_ports-IsFirst (suc fuel) start last s h = elim (Bool-cases (ltb start last)) [
    | inr past ↦ rw past (past_end free start last no_ports (ground (arith, past)))
    | inl inside ↦ rw inside (
        round-IsFirst _ start last _ _ (sym (binds start s.world)) (ground (arith, inside))
          (scan_ports-IsFirst fuel (start + 2) last _ (omega (arith, h))))
  ]

  in_range-IsFirst :
      (start last : ℕ) (s : Server x) → IsFirst free start last (get_free_port x start last s).0
  unfolding get_free_port
  in_range-IsFirst start last s = scan_ports-IsFirst (last - start) start last s (omega arith)

  -- Where a port binds or not whatever happens, `get_free_video_port` and `get_free_audio_port` return
  -- the first port that binds among the start of their range and every second port after it, below its
  -- end; and an error only if none of them binds. They never panic: the rounds are enough.
  pub get_free_port-IsFirst :
      (s : Server x)
      → IsFirst free s.config.plain_transport_video_port_range_start
          s.config.plain_transport_video_port_range_end
          (get_free_video_port x s).0
        × IsFirst free s.config.plain_transport_audio_port_range_start
            s.config.plain_transport_audio_port_range_end
            (get_free_audio_port x s).0
  unfolding get_free_video_port get_free_audio_port
  get_free_port-IsFirst s = (
    in_range-IsFirst s.config.plain_transport_video_port_range_start
        s.config.plain_transport_video_port_range_end s,
    in_range-IsFirst s.config.plain_transport_audio_port_range_start
        s.config.plain_transport_audio_port_range_end s,
  )
