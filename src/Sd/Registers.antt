-- ===== src/Sd/Registers.antt =====
-- hypervisor/boards/raspi/sd.c, include/boards/raspi/gpio.h, include/common/sd.h: the registers of
-- the card's controller, the commands of the card and the bits of both.
use Prim.Native.Nat.{bit_or}
use avisor.Prelude.{ℕ, ◌+◌}
use avisor.Board.{pbase}

abbrev pub emmc_blksizecnt : ℕ
emmc_blksizecnt = pbase + 0x00300004

abbrev pub emmc_arg1 : ℕ
emmc_arg1 = pbase + 0x00300008

abbrev pub emmc_cmdtm : ℕ
emmc_cmdtm = pbase + 0x0030000C

abbrev pub emmc_resp0 : ℕ
emmc_resp0 = pbase + 0x00300010

abbrev pub emmc_resp1 : ℕ
emmc_resp1 = pbase + 0x00300014

abbrev pub emmc_resp2 : ℕ
emmc_resp2 = pbase + 0x00300018

abbrev pub emmc_resp3 : ℕ
emmc_resp3 = pbase + 0x0030001C

abbrev pub emmc_data : ℕ
emmc_data = pbase + 0x00300020

abbrev pub emmc_status : ℕ
emmc_status = pbase + 0x00300024

abbrev pub emmc_control0 : ℕ
emmc_control0 = pbase + 0x00300028

abbrev pub emmc_control1 : ℕ
emmc_control1 = pbase + 0x0030002C

abbrev pub emmc_interrupt : ℕ
emmc_interrupt = pbase + 0x00300030

abbrev pub emmc_int_mask : ℕ
emmc_int_mask = pbase + 0x00300034

abbrev pub emmc_int_en : ℕ
emmc_int_en = pbase + 0x00300038

abbrev pub emmc_slotisr_ver : ℕ
emmc_slotisr_ver = pbase + 0x003000FC

abbrev pub cmd_need_app : ℕ
cmd_need_app = 0x80000000

abbrev pub cmd_rspns_48 : ℕ
cmd_rspns_48 = 0x00020000

abbrev pub cmd_errors_mask : ℕ
cmd_errors_mask = 0xfff9c004

abbrev pub cmd_rca_mask : ℕ
cmd_rca_mask = 0xffff0000

abbrev pub cmd_go_idle : ℕ
cmd_go_idle = 0x00000000

abbrev pub cmd_all_send_cid : ℕ
cmd_all_send_cid = 0x02010000

abbrev pub cmd_send_rel_addr : ℕ
cmd_send_rel_addr = 0x03020000

abbrev pub cmd_card_select : ℕ
cmd_card_select = 0x07030000

abbrev pub cmd_send_if_cond : ℕ
cmd_send_if_cond = 0x08020000

abbrev pub cmd_stop_trans : ℕ
cmd_stop_trans = 0x0C030000

abbrev pub cmd_read_single : ℕ
cmd_read_single = 0x11220010

abbrev pub cmd_read_multi : ℕ
cmd_read_multi = 0x12220032

abbrev pub cmd_set_blockcnt : ℕ
cmd_set_blockcnt = 0x17020000

abbrev pub cmd_app_cmd : ℕ
cmd_app_cmd = 0x37000000

abbrev pub cmd_set_bus_width : ℕ
cmd_set_bus_width = bit_or 0x06020000 cmd_need_app

abbrev pub cmd_send_op_cond : ℕ
cmd_send_op_cond = bit_or 0x29020000 cmd_need_app

abbrev pub cmd_send_scr : ℕ
cmd_send_scr = bit_or 0x33220010 cmd_need_app

abbrev pub sr_read_available : ℕ
sr_read_available = 0x00000800

abbrev pub sr_dat_inhibit : ℕ
sr_dat_inhibit = 0x00000002

abbrev pub sr_cmd_inhibit : ℕ
sr_cmd_inhibit = 0x00000001

abbrev pub sr_app_cmd : ℕ
sr_app_cmd = 0x00000020

abbrev pub int_data_timeout : ℕ
int_data_timeout = 0x00100000

abbrev pub int_cmd_timeout : ℕ
int_cmd_timeout = 0x00010000

abbrev pub int_read_rdy : ℕ
int_read_rdy = 0x00000020

abbrev pub int_cmd_done : ℕ
int_cmd_done = 0x00000001

abbrev pub int_error_mask : ℕ
int_error_mask = 0x017E8000

abbrev pub c0_hctl_dwitdh : ℕ
c0_hctl_dwitdh = 0x00000002

abbrev pub c1_srst_hc : ℕ
c1_srst_hc = 0x01000000

abbrev pub c1_tounit_max : ℕ
c1_tounit_max = 0x000e0000

abbrev pub c1_clk_en : ℕ
c1_clk_en = 0x00000004

abbrev pub c1_clk_stable : ℕ
c1_clk_stable = 0x00000002

abbrev pub c1_clk_intlen : ℕ
c1_clk_intlen = 0x00000001

abbrev pub host_spec_num : ℕ
host_spec_num = 0x00ff0000

abbrev pub host_spec_num_shift : ℕ
host_spec_num_shift = 16

abbrev pub host_spec_v2 : ℕ
host_spec_v2 = 1

abbrev pub scr_sd_bus_width_4 : ℕ
scr_sd_bus_width_4 = 0x00000400

abbrev pub scr_supp_set_blkcnt : ℕ
scr_supp_set_blkcnt = 0x02000000

abbrev pub scr_supp_ccs : ℕ
scr_supp_ccs = 0x00000001

abbrev pub acmd41_voltage : ℕ
acmd41_voltage = 0x00ff8000

abbrev pub acmd41_cmd_complete : ℕ
acmd41_cmd_complete = 0x80000000

abbrev pub acmd41_cmd_ccs : ℕ
acmd41_cmd_ccs = 0x40000000

abbrev pub acmd41_arg_hc : ℕ
acmd41_arg_hc = 0x51ff8000

abbrev pub gpfsel4 : ℕ
gpfsel4 = pbase + 0x00200010

abbrev pub gpfsel5 : ℕ
gpfsel5 = pbase + 0x00200014

abbrev pub gphen1 : ℕ
gphen1 = pbase + 0x00200068

abbrev pub gppud : ℕ
gppud = pbase + 0x00200094

-- The results, as words of an int.
abbrev pub sd_ok : ℕ
sd_ok = 0

abbrev pub sd_timeout : ℕ
sd_timeout = 0xffffffff

abbrev pub sd_error : ℕ
sd_error = 0xfffffffe
