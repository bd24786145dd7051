-- ===== src/Daemon/Environment/Approval.antt =====
-- The commissioning approval in the environment of base-rockpie/src/main.cpp.
use gridex_edge_gateway.Prelude.{
  ◌≡◌, refl, Bool, true, false, ◌||◌, ◌&&◌, Option, none, some, List, ℕ, ◌∷◌, [], arith,
}
use gridex_edge_gateway.Prelude.Text.{codes}
use gridex_edge_gateway.Ota.Compare.{text_equal}
use gridex_edge_gateway.Driver.Poll.{CommissioningApproval, writes_enabled}
use gridex_edge_gateway.Daemon.Environment.{Environment, env_bool, env_string}
use gridex_edge_gateway.Mqtt.Publish.{is_empty}

unfoldable pub approval_of : Environment → CommissioningApproval
unfolding env_bool
approval_of env = record {
  addressing_confirmed = env_bool env (codes "GRIDEX_APPROVE_ADDRESSING") false;
  sign_confirmed = env_bool env (codes "GRIDEX_APPROVE_POWER_SIGN") false;
  scaling_confirmed = env_bool env (codes "GRIDEX_APPROVE_SCALING") false;
  int32_word_order_confirmed = env_bool env (codes "GRIDEX_APPROVE_INT32_WORD_ORDER") false;
  int32_high_word_first = env_bool env (codes "GRIDEX_INT32_HIGH_WORD_FIRST") true;
}

-- A variable that says yes.
abbrev pub approves : Option (List ℕ) → Bool
approves none = false
approves (some value) =
    text_equal value (codes "1")
    || text_equal value (codes "true")
    || text_equal value (codes "yes")

not_empty : (c : ℕ) (value : List ℕ) → is_empty (c ∷ value) ≡ false
not_empty c value = ground arith

env_bool-approves :
    (env : Environment) (name : List ℕ) → env_bool env name false ≡ approves (env name)
unfolding env_bool env_string
env_bool-approves env name = said (env name) refl
  where
    said : (v : Option (List ℕ)) → env name ≡ v → env_bool env name false ≡ approves v
    said none e = rw e refl
    said (some []) e = rw e refl
    said (some (c ∷ value)) e = rw (e, not_empty c value) refl

-- The driver may write exactly if all of addressing, power sign and scaling were approved by a variable
-- that reads `1`, `true` or `yes`. Without a variable, or with an empty one, it may not.
pub writes_enabled-approval_of :
    (env : Environment)
    → writes_enabled (approval_of env)
      ≡ approves (env (codes "GRIDEX_APPROVE_ADDRESSING"))
        && approves (env (codes "GRIDEX_APPROVE_POWER_SIGN"))
        && approves (env (codes "GRIDEX_APPROVE_SCALING"))
unfolding writes_enabled approval_of
writes_enabled-approval_of env =
    rw
      (
        env_bool-approves env (codes "GRIDEX_APPROVE_ADDRESSING"),
        env_bool-approves env (codes "GRIDEX_APPROVE_POWER_SIGN"),
        env_bool-approves env (codes "GRIDEX_APPROVE_SCALING"),
      )
      refl
