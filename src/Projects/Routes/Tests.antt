-- ===== src/Projects/Routes/Tests.antt =====
-- A project with a custom domain and a rule for a path.
use caddytower.Prelude.{◌≡◌, refl, true, false, [], ◌∷◌, All}
use caddytower.Prelude.Int.{pos}
use caddytower.Prelude.Texts.{codes, text_eq, trim_space}
use caddytower.Json.{end}
use caddytower.Caddy.Merge.{merge_managed_routes}
use caddytower.Caddy.Idempotent.{routes_of}
use caddytower.Projects.{Project, ProjectHttpRoute, Settings}
use caddytower.Projects.Routes.{plan, effective_project_route_hosts}
use caddytower.Projects.Routes.Hosts.{IsHostList, effective_hosts-IsHostList}
use caddytower.Projects.Routes.Plan.{HasRules, prefix_rule, plan_idempotent}

abbrev api_rule : ProjectHttpRoute
api_rule = record {
  hostname = [];
  match_type = codes "path_prefix";
  match_value = codes "/api";
  strip_prefix = true;
  rewrite_prefix = [];
  priority = pos 1;
}

abbrev blog : Project
blog = record {
  id = codes "p1";
  slug = codes "blog";
  kind = codes "web";
  image_ref = codes "ghcr.io/a/blog:1";
  internal_port = 80;
  full_domain = codes "blog.dev";
  custom_domains = codes "Www.Blog.org." ∷ codes "blog.dev" ∷ [];
  watchtower_enabled = false;
  env = [];
  db_attachments = [];
  mounts = [];
  ports = [];
  http_routes = api_rule ∷ [];
  container_name = codes "caddytower-blog";
  health_check_path = [];
  health_check_timeout = 0;
}

abbrev settings : Settings
settings = record {
  root_domain = codes "dev";
  origin_hostname = [];
  cloudflare_zone_id = [];
  cloudflare_proxied = false;
}

blog-HasRules : All HasRules (blog ∷ [])
unfolding text_eq trim_space
blog-HasRules = ((prefix_rule refl refl refl, tt), tt)

effective_hosts-IsHostList_example : IsHostList (effective_project_route_hosts blog)
effective_hosts-IsHostList_example = effective_hosts-IsHostList blog

plan_idempotent_example :
    routes_of (
      merge_managed_routes
        (merge_managed_routes end
          (plan settings (codes "8080") (blog ∷ [])).0
          (plan settings (codes "8080") (blog ∷ [])).1)
        (plan settings (codes "8080") (blog ∷ [])).0
        (plan settings (codes "8080") (blog ∷ [])).1)
    ≡ routes_of (
        merge_managed_routes end
          (plan settings (codes "8080") (blog ∷ [])).0
          (plan settings (codes "8080") (blog ∷ [])).1)
plan_idempotent_example = plan_idempotent settings (codes "8080") (blog ∷ []) end blog-HasRules
