-- ===== src/Host/Lives.antt =====
-- The engine's life keeps the books: CreateController, DestroyController and the rebuilds.
use Prim.Native.String.{String}
use centroid_x.Common.{
  ℕ, ◌+◌, ◌≤◌, ◌≡◌, refl, ◌⊎◌, Bool, true, false, not, arith, ap, elapsed, if◌then◌else◌, Option,
  none, some,
}
use centroid_x.Common.Int.{pos}
use centroid_x.RebuildGate
use centroid_x.SessionPolicy
use centroid_x.DartLiveness
use centroid_x.Host.{World, Reason, Effect, Host, when, emit}
use centroid_x.Host.Engine.{
  update_judgeable, note_engine_adapter, check_render_adapter, start_epoch, engine_up,
  create_controller, destroy_controller, renew_sentinel, perform_engine_rebuild,
}
use centroid_x.Host.Kept.{
  to_nat, builds, teardowns, Spares, AllSpare, Descending, Descending-le, GateAgrees, IsValid, Kept,
  same, when-Kept, if-Kept,
}

pub update_judgeable-Kept : (w : World) (h : Host) → Kept h (update_judgeable w h)
unfolding update_judgeable
update_judgeable-Kept w h = same refl

adapter-Kept :
    (o : Option ℕ) (h : Host)
    → Kept h
        (elim o [ none ↦ h | some luid ↦ record h { adapter_known = true; adapter_luid = luid } ])
adapter-Kept none h = same refl
adapter-Kept (some luid) h = same refl

pub note_engine_adapter-Kept : (w : World) (h : Host) → Kept h (note_engine_adapter w h)
unfolding note_engine_adapter
note_engine_adapter-Kept w h =
    if-Kept (not h.controller) h _ _ (λ _. same refl) (λ _. adapter-Kept w.engine_adapter h)

pub check_render_adapter-Kept : (w : World) (h : Host) → Kept h (check_render_adapter w h).0
unfolding check_render_adapter
check_render_adapter-Kept w h = note_engine_adapter-Kept w h

-- What a host without an engine must be for a new one to be built.
pub record IsReady (h : Host) : Type 0 where
  pub disarmed : h.probe_armed ≡ false
  pub config : h.gate.config ≡ RebuildGate.default_config
  pub even : builds h.trace ≡ teardowns h.trace
  pub spared : AllSpare h.trace
  pub falling : Descending (h.engine_epoch + 1) h.trace

start_epoch-agrees :
    (w : World) (h : Host)
    → IsReady h
    → let h' = start_epoch w h in GateAgrees h'.gate h'.dart_startup_complete h'.epoch_started_tick
unfolding start_epoch update_judgeable RebuildGate.engine_created DartLiveness.epoch_started
start_epoch-agrees w h r = record { in_flight = refl; since = refl; config = r.config }

engine_up-IsValid :
    (w : World) (reason : Reason) (h : Host)
    → GateAgrees h.gate h.dart_startup_complete h.epoch_started_tick
    → h.liveness.epoch ≡ pos h.engine_epoch
    → builds h.trace ≡ teardowns h.trace
    → AllSpare h.trace
    → Descending h.engine_epoch h.trace
    → IsValid (engine_up w reason h)
unfolding engine_up emit SessionPolicy.engine_created
engine_up-IsValid w reason h agrees listens even spared falling =
    (note_engine_adapter-Kept w _).valid (record {
      pending = refl;
      owned = λ e. cc;
      agrees = agrees;
      listens = listens;
      balanced = omega (arith, even);
      spared = (tt, (tt, spared));
      falling = (omega arith, falling);
    })

pub create_controller-IsValid :
    (w : World) (reason : Reason) (h : Host) → IsReady h → IsValid (create_controller w reason h)
unfolding create_controller start_epoch update_judgeable DartLiveness.epoch_started
create_controller-IsValid w reason h r =
    elim w.engine_starts
      as (λ b. IsValid (
        if b
        then engine_up w reason (start_epoch w h)
        else record (start_epoch w h) { controller = false; callbacks = 0 })) [
          | true ↦
              engine_up-IsValid w reason (start_epoch w h) (start_epoch-agrees w h r) refl r.even
                r.spared r.falling
          | false ↦ record {
            pending = rw (r.disarmed) refl;
            owned = λ _. r.disarmed;
            agrees = start_epoch-agrees w h r;
            listens = refl;
            balanced = omega (arith, r.even);
            spared = r.spared;
            falling = Descending-le _ _ h.trace (omega arith) r.falling;
          }
        ]

torn_down-Kept :
    (b : Bool) (complete : Bool) (age : ℕ) (reason : Reason) (h : Host)
    → h.controller ≡ b
    → (b ≡ true → Spares (Effect.torn_down complete age reason))
    → Kept h (record (when b (emit (Effect.torn_down complete age reason)) h) {
      controller = false;
      callbacks = 0;
      probe_armed = false;
    })
unfolding emit
torn_down-Kept true complete age reason h e spares = record {
  valid = λ v. record {
    pending = refl;
    owned = λ _. refl;
    agrees = v.agrees;
    listens = v.listens;
    balanced = omega (arith, v.balanced, ap to_nat e);
    spared = (spares refl, v.spared);
    falling = v.falling;
  };
  idle = λ c. cc;
}
torn_down-Kept false complete age reason h e spares = record {
  valid = λ v. record {
    pending = refl;
    owned = λ _. refl;
    agrees = v.agrees;
    listens = v.listens;
    balanced = omega (arith, v.balanced, ap to_nat e);
    spared = v.spared;
    falling = v.falling;
  };
  idle = λ c. record { none_left = refl; none_built = refl };
}

pub destroy_controller-Kept :
    (w : World) (reason : Reason) (h : Host)
    → (h.controller ≡ true
        → Spares
            (Effect.torn_down h.dart_startup_complete (elapsed w.now h.epoch_started_tick) reason))
    → Kept h (destroy_controller w reason h)
unfolding destroy_controller
destroy_controller-Kept w reason h spares = torn_down-Kept h.controller _ _ reason h refl spares

ready : (h : Host) → IsValid h → h.controller ≡ false → IsReady h
ready h v c = record {
  disarmed = v.owned c;
  config = v.agrees.config;
  even = omega (arith, v.balanced, ap to_nat c);
  spared = v.spared;
  falling = v.falling;
}

destroy_controller-idle :
    (w : World) (reason : Reason) (h : Host) → (destroy_controller w reason h).controller ≡ false
unfolding destroy_controller
destroy_controller-idle w reason h = refl

renew_sentinel-Kept : (w : World) (h : Host) → Kept h (renew_sentinel w h)
unfolding renew_sentinel
renew_sentinel-Kept w h = same refl

-- What lets a rebuild begin.
abbrev pub MayRebuild : World → Host → Type 0
MayRebuild w h = (h.dart_startup_complete ≡ true) ⊎ (180000 ≤ elapsed w.now h.epoch_started_tick)

pub perform_engine_rebuild-Kept :
    (w : World) (reason : String) (h : Host)
    → (IsValid h → MayRebuild w h)
    → Kept h (perform_engine_rebuild w reason h)
unfolding perform_engine_rebuild
perform_engine_rebuild-Kept w reason h may =
    if-Kept (not h.controller) h _ _ (λ _. same refl)
      (λ c. record {
        valid = λ v.
            let torn = destroy_controller w (Reason.rebuilding reason) h in
            let torn_valid =
              (destroy_controller-Kept w (Reason.rebuilding reason) h (λ _. may v)).valid v in
            (update_judgeable-Kept w _).valid (
              (when-Kept _ (renew_sentinel w) _ (renew_sentinel-Kept w)).valid (
                create_controller-IsValid w (Reason.rebuilding reason) torn (
                  ready torn torn_valid (destroy_controller-idle w (Reason.rebuilding reason) h))));
        idle = λ e. ground arith;
      })
