-- ===== src/Machine/Words.antt =====
-- The phrases of `DisplayVoice` in src/IMachine.cpp, by the byte that asks for them.
use Prim.Native.Char.{code}
use Prim.Native.String.{String}
use imachine_hb_f.Checksum.{Bytes}
use imachine_hb_f.Prelude.{
  ℕ, ◌+◌, ◌/◌, ◌%◌, none, some, List, [], ◌∷◌, ◌++◌, get_elem?, ltb, if◌then◌else◌,
}

-- The source file is stored as UTF-8: one code point's bytes. None is above 0xFFFF.
utf8 : ℕ → Bytes
utf8 c =
    if ltb c 0x80
    then c ∷ []
    else if ltb c 0x800
    then (0xC0 + c / 64) ∷ (0x80 + c % 64) ∷ []
    else (0xE0 + c / 4096) ∷ (0x80 + c / 64 % 64) ∷ (0x80 + c % 64) ∷ []

unfoldable pub text_bytes : String → Bytes
unfolding utf8
text_bytes String.[] = []
text_bytes (String.◌∷◌ c s) = utf8 (code c) ++ text_bytes s

phrases : List String
phrases =
    "0" ∷ "1" ∷ "2" ∷ "3" ∷ "4" ∷ "5" ∷ "6" ∷ "7" ∷ "8" ∷ "9" ∷ "元" ∷ "零" ∷ "十" ∷ "百" ∷ "千" ∷ "万"
    ∷ "一类车" ∷ "二类车" ∷ "三类车" ∷ "四类车" ∷ "五类车" ∷ "六类车" ∷ "七类车" ∷ "八类车" ∷ "九类车" ∷ "金额" ∷ "余额" ∷ "型"
    ∷ "车" ∷ "道" ∷ "超限率" ∷ "超限重" ∷ "总轴重" ∷ "吨" ∷ "您好" ∷ "欢迎光临" ∷ "谢谢" ∷ "一路平安" ∷ "再见" ∷ "报警音"
    ∷ "谢谢合作" ∷ "正常" ∷ "预付" ∷ "欠款" ∷ "公务" ∷ "军警" ∷ "紧急" ∷ "免费" ∷ "车队" ∷ "变档" ∷ "无卡" ∷ "右转" ∷ "超时"
    ∷ "违章" ∷ "黑车" ∷ "黑卡" ∷ "坏卡" ∷ "更改" ∷ "车牌不符" ∷ "无" ∷ "点" ∷ "系统正在加点自检" ∷ "货车" ∷ "客车" ∷ "型车"
    ∷ "农用车" ∷ "百分之" ∷ "集装箱车" ∷ "月票车" ∷ ".(点)" ∷ "ICC出错" ∷ "OBU被锁住" ∷ "电子标签被非法拆卸" ∷ "电子标签信息错误"
    ∷ "非本省电子标签" ∷ "非联网电子电子标签" ∷ "电子标签还未启用" ∷ "电子标签卡已经过期" ∷ "该电子标签已经进入黑名单，无效！" ∷ "OBU内无车牌信息,请走普通车道"
    ∷ "OBU信息非法,请走普通车道" ∷ "电子标签黑名单" ∷ "电子支付卡异常" ∷ "非联网电子支付卡" ∷ "无湖北省入口信息，请走普通车道" ∷ "电子支付卡信息错误"
    ∷ "该电子用户卡已进入黑名单,无效" ∷ "余额不足，请走普通车道" ∷ "电子支付卡还未启用" ∷ "电子支付卡已经过期" ∷ "余额为负,禁止通行" ∷ "卡黑名单" ∷ "其他异常"
    ∷ "IC卡不存在" ∷ "2-5点大型客车禁止通行!" ∷ "OBU与CPU卡非同省发行" ∷ "换卡，请走普通车道" ∷ "超时，请走普通车道" ∷ "Ｕ行，请走普通车道"
    ∷ "未知缴费方式！" ∷ "费率计算失败，请走普通车道！" ∷ "入口信息为空或者已交易完毕" ∷ "天线未收到标签扣款回复" ∷ []

-- The `switch`: a byte above 0x66 adds nothing.
unfoldable pub voice_word : ℕ → Bytes
unfolding phrases text_bytes
voice_word c = elim (get_elem? phrases c) [ none ↦ [] | some s ↦ text_bytes s ]
