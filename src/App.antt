-- ===== src/App.antt =====
-- pkg/platform: component.go, hooks.go, plugin.go and the registration half of app.go.
-- `W` is everything outside the App that components, hooks and plugins may read and change.
-- The App's mutex makes each method one atomic step, and a method is a function to the new App.
pub mod Run
pub mod Registry
pub mod Health
mod Tests
use goplatform.Prelude.{
  ℕ, ℤ, pos, String, Bool, true, false, Option, none, some, List, [], ◌∷◌, ◌++◌, str_eq, ◌||◌,
  if◌then◌else◌,
}
use goplatform.Errors.{Error, Arg, text, failure}

-- The context handed to a call: `ctx` of Run, which a signal cancels, or the shutdown context, which
-- drops that cancellation and has its own timeout; or the context of an HTTP request.
pub data Ctx : Type 0 where
  signalled : Ctx
  shutdown : ℤ → Ctx
  request : Ctx

-- An interface value: `declared` is what `Name()` returns where the value is `Named`, `health` its
-- `HealthCheck` where it is a `HealthChecker`.
pub record Component (W : Type 0) : Type 0 where
  pub declared : Option String
  pub start : Ctx → W → W × Option Error
  pub stop : Ctx → W → W × Option Error
  pub health : Option (Ctx → W → W × Option Error)

abbrev pub BeforeStartHook : Type 0 → Type 0
BeforeStartHook W = Ctx → String → W → W × Option Error

abbrev pub AfterStartHook : Type 0 → Type 0
AfterStartHook W = Ctx → W → W

abbrev pub BeforeStopHook : Type 0 → Type 0
BeforeStopHook W = Ctx → W → W

abbrev pub AfterStopHook : Type 0 → Type 0
AfterStopHook W = Ctx → Option Error → W → W

-- The body of `Plugin.Init`: a program over `PluginContext`. It ends with its error, calls a
-- method of the context and goes on with what that returns, or acts on the world.
pub data PluginInit (W : Type 0) : Type 0 where
  finish : Option Error → PluginInit W
  register : String → Component W → (Option Error → PluginInit W) → PluginInit W
  component : String → (Option (Component W) → PluginInit W) → PluginInit W
  on_before_start : BeforeStartHook W → PluginInit W → PluginInit W
  on_after_start : AfterStartHook W → PluginInit W → PluginInit W
  on_before_stop : BeforeStopHook W → PluginInit W → PluginInit W
  on_after_stop : AfterStopHook W → PluginInit W → PluginInit W
  act : (W → W) → (W → PluginInit W) → PluginInit W

pub record Plugin (W : Type 0) : Type 0 where
  pub name : String
  pub init : PluginInit W
  pub close : W → W × Option Error

pub record NamedComponent (W : Type 0) : Type 0 where
  pub name : String
  pub component : Component W

-- The logger is left out: it only writes.
pub record App (W : Type 0) : Type 0 where
  pub components : List (NamedComponent W)
  pub plugins : List (Plugin W)
  pub before_start : List (BeforeStartHook W)
  pub after_start : List (AfterStartHook W)
  pub before_stop : List (BeforeStopHook W)
  pub after_stop : List (AfterStopHook W)
  pub shutdown_timeout : ℤ

-- 30 * time.Second, in nanoseconds.
abbrev default_shutdown_timeout : ℤ
default_shutdown_timeout = pos 30_000_000_000

module _ {W : Type 0} where
  default_app : App W
  default_app = record {
    components = [];
    plugins = [];
    before_start = [];
    after_start = [];
    before_stop = [];
    after_stop = [];
    shutdown_timeout = default_shutdown_timeout;
  }

  apply_options : App W → List (App W → App W) → App W
  apply_options a [] = a
  apply_options a (opt ∷ opts) = apply_options (opt a) opts

  unfoldable pub new : List (App W → App W) → App W
  unfolding default_app apply_options
  new opts = apply_options default_app opts

  unfoldable pub with_shutdown_timeout : ℤ → App W → App W
  with_shutdown_timeout d a = record a { shutdown_timeout = d }

  unfoldable pub resolved_name : String → Component W → String
  resolved_name name c = elim c.declared [ none ↦ name | some declared ↦ declared ]

  -- the loop of Register over the names taken
  unfoldable pub taken : List (NamedComponent W) → String → Bool
  taken [] name = false
  taken (nc ∷ ncs) name = str_eq nc.name name || taken ncs name

  unfoldable pub register_component : App W → String → Component W → App W × Option Error
  unfolding resolved_name
  register_component a name c =
      if taken a.components (resolved_name name c)
      then (
        a,
        some (
            failure "platform: register: component %q already exists"
              (text (resolved_name name c) ∷ [])),
      )
      else (
        record a {
          components = a.components ++ record { name = resolved_name name c; component = c } ∷ [];
        },
        none,
      )

  unfoldable pub use_plugins : App W → List (Plugin W) → App W
  use_plugins a plugins = record a { plugins = a.plugins ++ plugins }

  unfoldable pub add_before_start : App W → BeforeStartHook W → App W
  add_before_start a h = record a { before_start = a.before_start ++ h ∷ [] }

  unfoldable pub add_after_start : App W → AfterStartHook W → App W
  add_after_start a h = record a { after_start = a.after_start ++ h ∷ [] }

  unfoldable pub add_before_stop : App W → BeforeStopHook W → App W
  add_before_stop a h = record a { before_stop = a.before_stop ++ h ∷ [] }

  unfoldable pub add_after_stop : App W → AfterStopHook W → App W
  add_after_stop a h = record a { after_stop = a.after_stop ++ h ∷ [] }

  unfoldable pub find_component : List (NamedComponent W) → String → Option (Component W)
  find_component [] name = none
  find_component (nc ∷ ncs) name =
      if str_eq nc.name name then some nc.component else find_component ncs name

  -- App.Component
  unfoldable pub get_component : App W → String → Option (Component W)
  unfolding find_component
  get_component a name = find_component a.components name
