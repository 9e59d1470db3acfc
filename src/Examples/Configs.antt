-- ===== src/Examples/Configs.antt =====
-- The configuration files of the site.
use ceph_mesos.Prelude.{refl, some, text_eq, ◌≡◌}
use ceph_mesos.Common.Config.{
  config_of_document, get_config, get_file_contents, is_incomplete, load_config, override_by_flags,
  parse_config_string,
}
use ceph_mesos.Examples.Site.{site, site_config}

pub site_config-read : get_config site ≡ some site_config
unfolding get_config load_config get_file_contents parse_config_string text_eq is_incomplete
    override_by_flags config_of_document
site_config-read = refl
