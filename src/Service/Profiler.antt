-- ===== src/Service/Profiler.antt =====
-- `pprof_start` of src/service/v1/mod.rs, over the profiler of the crate pprof.
use doordarshan_media_server.Base.{String, Option, none, some, ok}
use doordarshan_media_server.Base.Action.{◌>>=◌, ◌>>◌, pure, panics, modify}
use doordarshan_media_server.Sfu.Platform.{Platform}
use doordarshan_media_server.Sfu.Server.{Handler}
use doordarshan_media_server.Service.Answers.{Response, accepted}

pub record ProfilerStatus : Type 0 where
  pub status : String

module _ (x : Platform) where
  open x use {World, Report, ProfilerGuard}

  -- What a call outside gives, if it did not fail.
  unfoldable pub outside : {A : Type 0} → (World → Option A × World) → Handler x (Option A)
  outside f s = (ok (f s.world).0, record s { world = (f s.world).1 })

  -- `unwrap` and `expect`
  abbrev pub expect : {A : Type 0} → Option A → Handler x A
  expect none = panics
  expect (some a) = pure a

  unfoldable pub write_report : Option Report → Handler x (Unit {0})
  write_report none = pure tt
  write_report (some report) = do
    created ← outside (x.create_file "flamegraph.svg")
    expect created
    written ← outside (x.write_flamegraph report)
    expect written

  unfoldable pub profile : ProfilerGuard → Handler x (Unit {0})
  profile guard = do
    modify λ s. record s { world = x.sleep 30 s.world }
    report ← outside (x.build_report guard)
    write_report report

  unfoldable pub profiling : Handler x (Unit {0})
  profiling = do built ← outside x.build_profiler; guard ← expect built; profile guard

  unfoldable pub pprof_start : Handler x (Response ProfilerStatus)
  pprof_start = do profiling; pure (accepted (record { status = "pprof started" }))
