-- ===== src/Samples.antt =====
-- A small database for the tests: one participant, one activity, one reward.
use semcomp2026_gameficacao.Prelude.{ℕ, true, false, none, some, [], ◌∷◌, pos, negsuc}
use semcomp2026_gameficacao.Text.{text}
use semcomp2026_gameficacao.Database.Memory.{memory}
use semcomp2026_gameficacao.Database.Schema.{Fresh, User, Action, Reward, participant, checkin}
use semcomp2026_gameficacao.Database.Tx.{Db}
use semcomp2026_gameficacao.Audit.Contract.{OperationContext}

abbrev pub ana : User
ana = record {
  id = 1;
  name = text "Ana";
  role = participant;
  points = pos 0;
  xp = pos 0;
  level = 1;
  is_active = true;
  cpf = text "11111111111";
  email = text "ana@usp.br";
  last_login_at = none;
  password_hash = some (text "ana-hash");
  password_changed_at = none;
  admin_profile = none;
  password_reset_required = false;
  password_reset_expires_at = none;
  created_at = 0;
}

abbrev pub opening : Action
opening = record {
  id = 10;
  name = text "Abertura";
  description = none;
  type = checkin;
  code = none;
  points = pos 30;
  is_active = true;
  is_code_active = false;
  created_at = 0;
}

abbrev pub mug : Reward
mug = record {
  id = 20;
  name = text "Caneca";
  description = none;
  cost_in_points = pos 20;
  stock = pos 3;
  is_active = true;
  image_url = none;
  created_at = 0;
}

abbrev pub start : Db ⦃P = memory⦄
start = record {
  users = (1, ana) ∷ [];
  actions = (10, opening) ∷ [];
  claim_codes = [];
  claim_code_batches = [];
  bulk_operations = [];
  point_events = [];
  rewards = (20, mug) ∷ [];
  redemptions = [];
  audit_events = [];
  admin_activations = [];
  sessions = [];
}

abbrev pub fresh_from : ℕ → Fresh
fresh_from n = record { point_event_id = n; audit_event_id = n; entity_id = n; now = n }

abbrev pub admin_context : OperationContext
admin_context = record { actor_admin_id = 99; request_id = 5 }

-- The same, after Ana was given 50 points.
abbrev pub rich : Db ⦃P = memory⦄
rich = record start { users = (1, record ana { points = pos 50 }) ∷ [] }

-- The same, with an activity of negative points.
abbrev pub penalty : Action
penalty = record opening { id = 11; points = negsuc 4 }

abbrev pub with_penalty : Db ⦃P = memory⦄
with_penalty = record start { actions = (11, penalty) ∷ [] }
