-- ===== src/Evs/Node/Panics.antt =====
-- Where the search for a device (getDevicePath of pkg/evs/nodeserver.go) panics.
use huaweicloud_csi_driver.Prelude.{◌≡◌, refl, ◌==◌, String, none, if◌then◌else◌}
use huaweicloud_csi_driver.Status.{err, ok, panic}
use huaweicloud_csi_driver.Effect.{attempt, with_variable}
use huaweicloud_csi_driver.Common.{Timer, IsTimer}
use huaweicloud_csi_driver.Utils.Text.{slice_to}
use huaweicloud_csi_driver.Evs.Sdk.{Cloud, Volume}
use huaweicloud_csi_driver.Evs.Driver.{EvsDriver}
use huaweicloud_csi_driver.Node.Host.{Host}
use huaweicloud_csi_driver.Node.Mounts.{
  with_short_id, get_device_path_by_serial_id, device_condition, get_device_path, mount_provider,
}
use huaweicloud_csi_driver.Evs.Node.{device_path_by_id, device_path_of}

module _ {S : Type 0} (h : Host S) (t : Timer) (lawful : IsTimer t) where
  device_condition-panics :
      (id : String) (s : S)
      → slice_to 20 id ≡ none
      → device_condition h id (s, "") ≡ (err panic, (s, ""))
  unfolding device_condition get_device_path_by_serial_id with_short_id attempt
  device_condition-panics id s short = rw (short, with_short_id) refl

  get_device_path-panics :
      (id : String) (s : S) → slice_to 20 id ≡ none → get_device_path h t id s ≡ (err panic, s)
  unfolding get_device_path with_variable attempt
  get_device_path-panics id s short =
      let (next, polls) = lawful.polls (S × String) 1 110 14 (device_condition h id) in
      rw (polls (s, ""), device_condition-panics id s short) refl

module _ (C : Cloud) (h : Host C.State) (lawful : IsTimer C.timer) (d : EvsDriver) where
  device_path_by_id-panics :
      (id : String) (s : C.State)
      → slice_to 20 id ≡ none
      → device_path_by_id C h (mount_provider h C.timer) d id s ≡ (err panic, s)
  unfolding device_path_by_id mount_provider attempt
  device_path_by_id-panics id s short = rw (get_device_path-panics h C.timer lawful id s short) refl

  -- The search for a device panics where the first search found none, and the WWN of the volume has fewer
  -- than twenty characters, as it has where the volume has no WWN: then the search by the WWN slices its
  -- first twenty characters.
  pub device_path_of-panics :
      (volume : Volume) (id : String) (s s' : C.State)
      → device_path_by_id C h
          (mount_provider h C.timer)
          d
          (if volume.hw_passthrough == "true" then volume.wwn else id)
          s
        ≡ (ok "", s')
      → slice_to 20 volume.wwn ≡ none
      → device_path_of C h (mount_provider h C.timer) d volume id s ≡ (err panic, s')
  unfolding device_path_of attempt
  device_path_of-panics volume id s s' nothing short =
      rw (nothing, device_path_by_id-panics volume.wwn s' short) refl
