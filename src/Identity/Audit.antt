-- ===== src/Identity/Audit.antt =====
-- `TypeOrmAuditRepository` and `TypeOrmUnitOfWork`
-- (apps/identity/src/infrastructure/persistence/typeorm.repositories.ts).
use food_ordering_app.Prelude.{String, Option, [], ◌∷◌, ◌++◌}
use food_ordering_app.Effect.{ok, err, Action, modify}
use food_ordering_app.Identity.Model.{DeviceContext, AuditAction, AuditMetadata, World}

-- `TypeOrmAuditRepository.append`
unfoldable pub append :
    AuditAction
    → Option String
    → Option String
    → DeviceContext
    → AuditMetadata
    → Action World (Unit {0})
append action user_id target_session_id device metadata = modify (λ w. record w {
  audit =
      w.audit
      ++ (record {
        action = action;
        user_id = user_id;
        target_session_id = target_session_id;
        ip = device.ip;
        ua = device.user_agent;
        metadata = metadata;
      }
          ∷ []);
})

-- A state with the tables of another.
abbrev undone : World → World → World
undone v w = record v {
  users = w.users;
  credentials = w.credentials;
  sessions = w.sessions;
  tokens = w.tokens;
  audit = w.audit;
}

-- `DataSource.transaction`: an exception undoes what was written.
unfoldable pub with_transaction : {A : Type 0} → Action World A → Action World A
with_transaction m w = let (r, v) = m w in elim r [ ok a ↦ (ok a, v) | err e ↦ (err e, undone v w) ]
