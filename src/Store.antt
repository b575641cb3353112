-- ===== src/Store.antt =====
-- The database, the session of one request and the queries that the handlers share.
mod Tables
mod Request
mod Query
mod Rules
mod Triple
mod Endings
mod Silent
pub use Tables.{
  Db, same_progress, same_version, same_retrospective, same_email, same_run, same_worker,
  all_distinct,
}
unfoldable pub use Tables.{integrity}
pub use Request.{
  Error, http, existing_report, multiple_results, integrity_error, date_overflow, value_error,
  storage_error, type_error, Result, ok, err, Session, M, pending, bump_id, continue, ◌>>◌, run,
}
unfoldable pub use Request.{
  pure, raise, raise_if, or_raise, gets, modify, new_uuid, scalar_one_or_none, flush, commit,
  attempt, ◌>>=◌,
}
pub use Query.*
pub use Rules.*
pub use Triple.*
pub use Endings.*
pub use Silent.{
  Writes, Writes-pure, Writes-gets, Writes-modify, Writes-new_uuid, Writes-bind, Ends-Writes,
  Ends-any,
}
