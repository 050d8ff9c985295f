-- ===== src/Service/Checkin/Merge.antt =====
-- What a check-in does to the device (internal/server/service/checkin.go).
use diyddns.Store.Db.{Db}
use diyddns.Service.Checkin.Branches.{Writes}
