-- ===== src/Sfu/Ports.antt =====
-- The free ports for recordings, `get_free_video_port` and `get_free_audio_port` of
-- src/mediasoupv1/mod.rs, and the capabilities of a router.
pub mod First
use doordarshan_media_server.Base.{
  ℕ, zero, suc, ◌+◌, ◌-◌, ◌<◌, String, Bool, true, false, Option, none, some, if◌then◌else◌, ltb,
  Outcome, ok,
}
use doordarshan_media_server.Base.Dict.{lookup}
use doordarshan_media_server.Base.Action.{◌>>=◌, pure, fail, panics, gets}
use doordarshan_media_server.Sfu.Platform.{Platform}
use doordarshan_media_server.Sfu.Server.{RouterInMemory, Server, Handler}

module _ (x : Platform) where
  unfoldable pub udp_bind : ℕ → Handler x Bool
  udp_bind port s =
      (ok (x.udp_bind port s.world).0, record s { world = (x.udp_bind port s.world).1 })

  -- `for port in (start..end).step_by(2)`, on fuel.
  unfoldable pub scan_ports : ℕ → ℕ → ℕ → Handler x ℕ
  scan_ports zero port last = fail "No free ports available for recording"
  scan_ports (suc fuel) port last =
      let rest = scan_ports fuel (port + 2) last in
      if ltb port last
      then (do is_free ← udp_bind port; if is_free then pure port else rest)
      else fail "No free ports available for recording"

  -- One round for each port is enough.
  unfoldable pub get_free_port : ℕ → ℕ → Handler x ℕ
  get_free_port start last = scan_ports (last - start) start last

  unfoldable pub get_free_video_port : Handler x ℕ
  get_free_video_port s =
      get_free_port s.config.plain_transport_video_port_range_start
        s.config.plain_transport_video_port_range_end s

  unfoldable pub get_free_audio_port : Handler x ℕ
  get_free_audio_port s =
      get_free_port s.config.plain_transport_audio_port_range_start
        s.config.plain_transport_audio_port_range_end s

  abbrev pub capabilities_of : Option (RouterInMemory x) → Handler x x.RtpCapabilitiesFinalized
  capabilities_of none = panics
  capabilities_of (some router) = pure (x.rtp_capabilities router.router)

  -- An unknown router panics.
  unfoldable pub get_router_capabilities : String → Handler x x.RtpCapabilitiesFinalized
  get_router_capabilities router_id = do
    router_map ← gets (λ s. s.routers_map)
    capabilities_of (lookup router_id router_map)
