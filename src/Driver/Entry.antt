-- ===== src/Driver/Entry.antt =====
-- DriverEntry and FilterUnloadCallback of MedusaKernelDriver/Main.c, with createRegistration of
-- Callback.c, createRegistrationMiniFilter of Minifilter.c, registerNotifyRoutine of
-- NotifyRoutine.c, and the port of Coms.c: what the driver holds of the system, and what it gives
-- back.
use open_anti_cheat.Common.{
  ℕ, ◌+◌, ◌-◌, ◌≡◌, Bool, true, false, if◌then◌else◌, arith, Option, some, none, ◌&&◌, ◌||◌, not,
  ◌>>=◌,
}

-- Which calls succeed.
pub record Answers : Type 0 where
  pub pool : Bool
  pub callbacks : Bool
  pub filter : Bool
  pub filtering : Bool
  pub process : Bool
  pub thread : Bool
  pub image : Bool
  pub filter_found : Bool
  pub descriptor : Bool
  pub port : Bool

-- What the system has given: memory for the registry path, the callbacks, the filter, the three
-- notify routines, references to the filter, ports and security descriptors; and whether the
-- driver's variables `g_minifilterHandle`, `flt_handle` and `flt_port` are set; the first may be
-- set to a filter that the system has freed.
pub record Holdings : Type 0 where
  pub pools : ℕ
  pub callbacks : Bool
  pub filter : Bool
  pub process : Bool
  pub thread : Bool
  pub image : Bool
  pub references : ℕ
  pub ports : ℕ
  pub descriptors : ℕ
  pub minifilter_handle : Bool
  pub flt_handle : Bool
  pub flt_port : Bool

abbrev pub nothing : Holdings
nothing = record {
  pools = 0;
  callbacks = false;
  filter = false;
  process = false;
  thread = false;
  image = false;
  references = 0;
  ports = 0;
  descriptors = 0;
  minifilter_handle = false;
  flt_handle = false;
  flt_port = false;
}

unfoldable pub create_registration : Answers → Holdings → Holdings
create_registration a s = record s { callbacks = a.callbacks }

-- `g_minifilterHandle` keeps the filter that a failed FltStartFiltering makes it give back.
unfoldable pub create_registration_mini_filter : Answers → Holdings → Holdings
create_registration_mini_filter a s =
    if a.filter
    then if a.filtering
      then record s { filter = true; minifilter_handle = true }
      else record s { filter = false; minifilter_handle = true }
    else s

unfoldable pub register_notify_routine : Answers → Holdings → Holdings
register_notify_routine a s = record s { process = a.process; thread = a.thread; image = a.image }

-- With the reference to the filter: the result, and whether it succeeds.
unfoldable pub miniflt_port_initialize : Answers → Holdings → Holdings × Bool
miniflt_port_initialize a s =
    if a.descriptor
    then (let built = record s { descriptors = s.descriptors + 1 } in
        let tried =
          if a.port
          then record built { ports = s.ports + 1; flt_port = true }
          else record built { flt_port = false } in
        (record tried { descriptors = tried.descriptors - 1 }, a.port))
    else (s, false)

unfoldable pub bind_to_existing_filter_and_create_port : Answers → Holdings → Holdings
unfolding miniflt_port_initialize
bind_to_existing_filter_and_create_port a s =
    if a.filter_found
    then (let (t, ok) =
          miniflt_port_initialize a
            (record s { references = s.references + 1; flt_handle = true }) in
        if ok then t else record t { references = t.references - 1; flt_handle = false })
    else s

-- `DriverEntry`, and whether it succeeds.
unfoldable pub driver_entry : Answers → Holdings × Bool
unfolding create_registration create_registration_mini_filter register_notify_routine
    bind_to_existing_filter_and_create_port
driver_entry a =
    if a.pool
    then (let s1 = create_registration a (record nothing { pools = 1 }) in
        let s2 = create_registration_mini_filter a s1 in
        let s3 = register_notify_routine a s2 in
        (bind_to_existing_filter_and_create_port a s3, true))
    else (nothing, false)

unfoldable pub miniflt_port_finalize : Holdings → Holdings
miniflt_port_finalize s =
    let closed = if s.flt_port then record s { ports = s.ports - 1; flt_port = false } else s in
    if closed.flt_handle
    then record closed { references = closed.references - 1; flt_handle = false }
    else closed

-- `FltUnregisterFilter` of `g_minifilterHandle`, if that is set. After a failed FltStartFiltering
-- the variable holds a filter that is already freed, and the call faults: none.
unfoldable pub unregister_filter : Holdings → Option Holdings
unregister_filter s =
    if s.minifilter_handle
    then if s.filter then some (record s { filter = false; minifilter_handle = false }) else none
    else some s

-- `ObUnRegisterCallbacks` of `callbackRegistrationHandle`, which is NULL when the registration
-- failed: the call faults then.
unfoldable pub unregister_callbacks : Holdings → Option Holdings
unregister_callbacks s = if s.callbacks then some (record s { callbacks = false }) else none

-- None: a call of it faults.
unfoldable pub filter_unload_callback : Holdings → Option Holdings
unfolding miniflt_port_finalize unregister_filter unregister_callbacks
filter_unload_callback s = do
  unregistered ← unregister_filter (miniflt_port_finalize s)
  unregister_callbacks (record unregistered { process = false; thread = false; image = false })

-- However the calls of DriverEntry go: after it no security descriptor is held, and the driver has
-- a reference to the filter just if it has its port. If it succeeds, the unloading goes through
-- just if the callbacks were registered and the filter was started or not registered at all, and
-- the driver then holds nothing of the system but the memory of the registry path; otherwise the
-- unloading faults.
pub unload-entry :
    (a : Answers)
    → ((driver_entry a).0.descriptors ≡ 0)
      × ((driver_entry a).0.references ≡ (driver_entry a).0.ports)
      × ((driver_entry a).1 ≡ true
          → filter_unload_callback (driver_entry a).0 ≡ (
              if a.callbacks && (not a.filter || a.filtering)
              then some (record nothing { pools = 1 })
              else none))
unfolding filter_unload_callback driver_entry
unload-entry a = ground arith
