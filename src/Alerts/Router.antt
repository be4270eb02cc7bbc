-- ===== src/Alerts/Router.antt =====
-- alerts/router.py: the route of the episode list. FastAPI refuses a limit out of its bounds.
use industrial_equipment_mon.Prelude.{ℕ, Bool, ◌&&◌, leb, if◌then◌else◌}
use industrial_equipment_mon.Core.{Reply, success, failure}
use industrial_equipment_mon.Db.Models.{Database}
use industrial_equipment_mon.Alerts.Listing.{AlertEpisodeList, list_alert_episodes}

-- `available`: whether the database answers the query.
unfoldable pub get_alerts : Bool → Database → ℕ → Reply AlertEpisodeList
get_alerts available db limit =
    if leb 1 limit && leb limit 100
    then if available
      then success 200 (list_alert_episodes db limit)
      else failure 503 "alert_episodes_unavailable"
    else failure 422 "validation_error"
