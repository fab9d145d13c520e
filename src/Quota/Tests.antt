-- ===== src/Quota/Tests.antt =====
-- Runs on concrete tables.
use python_fastapi_multiauth.Common.{
  refl, none, some, List, [], ◌∷◌, arith, only_row, only_row-IsOneOrNone,
}
use python_fastapi_multiauth.Common.Int.{pos, negsuc, ◌+ℤ◌}
use python_fastapi_multiauth.Quota.Model.{OrganizationQuota, active, Db}
use python_fastapi_multiauth.Quota.Service.{check_quota_with_subscription, increment_file_uploads}
use python_fastapi_multiauth.Quota.Guards.{User}
use python_fastapi_multiauth.Quota.Rows.{Holds, Leaves}
use python_fastapi_multiauth.Quota.Limits.{Within, admitted_upload-Within}
use python_fastapi_multiauth.Quota.Isolation.{upload, remove_file, Step, run, Safe, operations-Safe}

abbrev acme : OrganizationQuota
acme = record {
  id = 7;
  organization_id = 1;
  max_users = pos 10;
  current_users = pos 9;
  max_storage_bytes = pos 1000;
  current_storage_bytes = pos 400;
  max_api_calls_per_month = negsuc 0;
  current_api_calls_this_month = pos 5;
  max_file_uploads_per_day = pos 2;
  current_file_uploads_today = pos 1;
  max_file_size_bytes = pos 600;
  api_calls_reset_at = 0;
  file_uploads_reset_at = 0;
}

abbrev tables : Db
tables = record {
  quotas = acme ∷ [];
  usage_logs = [];
  subscriptions = record { organization_id = 1; status = active } ∷ [];
}

abbrev empty_tables : Db
empty_tables = record { quotas = []; usage_logs = []; subscriptions = [] }

abbrev member : User
member = record { id = 4; organizations = 1 ∷ [] }

acme-Holds : Holds 1 acme tables
acme-Holds = record { distinct = (refl, tt); row = refl }

admitted_upload-Within_example :
    (q' : OrganizationQuota) × Leaves 1 tables q'
      (increment_file_uploads only_row 9 50 1 none (pos 600) none tables)
    × Within q'.max_storage_bytes q'.current_storage_bytes
    × Within q'.max_file_uploads_per_day q'.current_file_uploads_today
unfolding check_quota_with_subscription ◌+ℤ◌
admitted_upload-Within_example =
    admitted_upload-Within only_row only_row-IsOneOrNone 9 0 50 1 (pos 600) none none acme tables
      tables tables acme-Holds (omega arith) refl refl

abbrev steps : List Step
steps =
    record { operation = remove_file (pos 900); now = 3; user_id = none; metadata = none }
    ∷ record { operation = upload (pos 20); now = 4; user_id = some 4; metadata = none }
    ∷ []

operations-Safe_example : Safe 1 tables (run only_row 9 1 steps tables)
operations-Safe_example =
    operations-Safe only_row only_row-IsOneOrNone 9 1 steps acme tables acme-Holds (omega arith)
      (omega arith)
