-- ===== src/Domain/Audit/Codes.antt =====
-- Every error code is a name that an audit record may carry.
use edge.Domain.Errors.{ErrorCode}
use edge.Domain.Errors.Names.{as_str}
use edge.Domain.Audit.{parse_id, valid}
use edge.Prelude.{◌≡◌, refl}

pub parse_id-as_str : (c : ErrorCode) → parse_id (as_str c) ≡ valid (as_str c)
unfolding parse_id as_str
parse_id-as_str ErrorCode.internal_bug = refl
parse_id-as_str c = refl
